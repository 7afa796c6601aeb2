-- ===== src/Iam/Keeps.antt =====
-- Facts about the store that reading and evicting entries keep.
use omnibioai_api_gateway.Prelude.{
  ◌≡◌, refl, ℕ, zero, suc, String, Bool, true, false, Option, none, some, ◌==◌, eqb,
}
use omnibioai_api_gateway.Json.{Json, null}
use omnibioai_api_gateway.Exec.{Exec, pure, ◌>>=◌, ◌>>◌}
use omnibioai_api_gateway.Exec.Keeps.{Keeps, pure-Keeps, bind-Keeps, catch-Keeps}
use omnibioai_api_gateway.Iam.{
  Posted, timed_out, broken, answered, Outside, choose, partition, compare_digest, token_key,
  api_key_key, sign_cache_entry, evict, evict_api_key, trusted_body, checked_parts, checked_entry,
  read_cache, after_attempt, attempts_from,
}

pub choose-Keeps :
    {S A : Type 0} (P : S → Type 0) (b : Bool) (m n : Exec S A)
    → Keeps P m
    → Keeps P n
    → Keeps P (choose b m n)
choose-Keeps P true m n h k = h
choose-Keeps P false m n h k = k

module _ {S : Type 0} (out : Outside S) (P : S → Type 0) where
  module _ (delete_keeps : (k : String) → Keeps P (out.cache.delete k)) where
    pub evict-Keeps : (token : String) → Keeps P (evict out token)
    unfolding evict
    evict-Keeps token =
        catch-Keeps P (out.cache.delete (token_key token)) (pure tt)
          (delete_keeps (token_key token)) (pure-Keeps P tt)

    pub evict_api_key-Keeps : (key_hash : String) → Keeps P (evict_api_key out key_hash)
    unfolding evict_api_key
    evict_api_key-Keeps key_hash =
        catch-Keeps P (out.cache.delete (api_key_key key_hash)) (pure tt)
          (delete_keeps (api_key_key key_hash)) (pure-Keeps P tt)

  module _ (ev : Exec S Unit) (ev_keeps : Keeps P ev) where
    evicted-Keeps : Keeps P (ev >> pure null)
    evicted-Keeps = bind-Keeps P ev _ ev_keeps (λ _. pure-Keeps P null)

    trusted_body-Keeps : (body : String) (o : Option Bool) → Keeps P (trusted_body out ev body o)
    unfolding trusted_body
    trusted_body-Keeps body none = λ s h. h
    trusted_body-Keeps body (some false) = evicted-Keeps
    trusted_body-Keeps body (some true) = λ s h. h

    checked_parts-Keeps :
        (subject : String) (o : Option (String × String)) → Keeps P (checked_parts out ev subject o)
    unfolding checked_parts
    checked_parts-Keeps subject none = evicted-Keeps
    checked_parts-Keeps subject (some (mac, body)) =
        trusted_body-Keeps body (compare_digest mac (sign_cache_entry out subject body))

    checked_entry-Keeps :
        (subject : String) (o : Option String) → Keeps P (checked_entry out ev subject o)
    unfolding checked_entry
    checked_entry-Keeps subject none = pure-Keeps P null
    checked_entry-Keeps subject (some raw) =
        choose-Keeps P (raw == "") (pure null) _ (pure-Keeps P null)
          (checked_parts-Keeps subject (partition raw))

    pub read_cache-Keeps :
        (subject key : String)
        → Keeps P (out.cache.get key)
        → Keeps P (read_cache out ev subject key)
    read_cache-Keeps subject key get_keeps =
        catch-Keeps P (out.cache.get key >>= checked_entry out ev subject) (pure null)
          (bind-Keeps P (out.cache.get key) _ get_keeps (checked_entry-Keeps subject))
          (pure-Keeps P null)

  module _ (post : ℕ → Posted) (use_answer : ℕ → Option Json → Exec S Json)
      (use_keeps : (attempt status : ℕ) (body : Option Json)
        → post attempt ≡ answered status body
        → Keeps P (use_answer status body)) where
    after_attempt-Keeps :
        (attempt : ℕ) (first : Bool) (retried : Exec S Json) (r : Posted)
        → post attempt ≡ r
        → Keeps P retried
        → Keeps P (after_attempt out post use_answer first retried r)
    unfolding after_attempt
    after_attempt-Keeps attempt first retried timed_out e h =
        choose-Keeps P first retried (pure null) h (pure-Keeps P null)
    after_attempt-Keeps attempt first retried broken e h = pure-Keeps P null
    after_attempt-Keeps attempt first retried (answered status body) e h =
        catch-Keeps P (use_answer status body) (pure null) (use_keeps attempt status body e)
          (pure-Keeps P null)

    pub attempts_from-Keeps :
        (left attempt : ℕ) → Keeps P (attempts_from out post use_answer left attempt)
    unfolding attempts_from
    attempts_from-Keeps zero attempt = pure-Keeps P null
    attempts_from-Keeps (suc left) attempt =
        after_attempt-Keeps attempt (eqb attempt 0)
          (attempts_from out post use_answer left (suc attempt)) (post attempt) refl
          (attempts_from-Keeps left (suc attempt))
