-- ===== src/Iam.antt =====
-- IAMClient (app/services/iam_client.py): the caches of tokens and of API keys, and the loop of
-- attempts behind them.
pub mod Validate
pub mod ApiKeys
pub mod Trust
pub mod KeyTrust
pub mod Keeps
pub mod Collision
pub mod Invalidation
pub mod CacheLaws
pub mod Revocation
pub mod Reuse
pub mod Expiry
pub mod Examples
use Prim.Native.Char.{code}
use Prim.Native.String
use omnibioai_api_gateway.Prelude.{
  ℕ, zero, suc, ◌*◌, ◌/◌, String, Bool, true, false, Option, none, some, List, [], ◌∷◌, ◌==◌, not,
  ◌&&◌, if◌then◌else◌, eqb, ltb,
}
use omnibioai_api_gateway.Prelude.Int.{ℤ, pos, negsuc, ltb_ℤ, ◌-ℤ◌}
use omnibioai_api_gateway.Json.{
  Json, Items, Fields, Float, null, bool, int, float, finite, str, arr, obj, nil, cons, field, end,
  find, get, get_or, truthy,
}
use omnibioai_api_gateway.Dict.{Dict}
use omnibioai_api_gateway.Exec.{Exec, pure, raise, or_raise, catch, ◌>>=◌, ◌>>◌}
use omnibioai_api_gateway.Text.{followed_by, ◌^^◌, rstrip, is_slash}
use omnibioai_api_gateway.RequestState.{is_api_key}

-- The commands of redis.asyncio that the client calls; each may raise.
pub record Cache (S : Type 0) : Type 0 where
  pub get : String → Exec S (Option String)
  -- setex(key, ttl, value)
  pub setex : String → ℤ → String → Exec S (Unit {0})
  pub delete : String → Exec S (Unit {0})

-- One POST of httpx, and how it ends: httpx.TimeoutException, another exception, or a status with
-- what `res.json()` returns, none where it raises.
pub record Post : Type 0 where
  pub url : String
  pub headers : Dict String
  pub json : Json

pub data Posted : Type 0 where
  timed_out broken : Posted
  answered : ℕ → Option Json → Posted

-- What the client calls, and the values of Config that it reads. `mac` is the hexdigest of an
-- HMAC-SHA256 under `_cache_mac_key()`, `sha256` the hexdigest of SHA-256, `decode_token` whether the
-- shared package returns without an exception; `post n` is the n-th attempt of a call. `print` is
-- `str()` of a value that is no text, `parse_int` is `int()` of a text.
pub record Outside (S : Type 0) : Type 0 where
  pub cache : Cache S
  pub mac : String → String
  pub sha256 : String → String
  pub dumps : Json → String
  pub loads : String → Option Json
  pub decode_token : String → Bool
  pub post : ℕ → Post → Posted
  pub print : Json → String
  pub parse_int : String → Option ℤ
  pub base_url : String
  pub exchange_secret : String
  pub api_key_cache_ttl : ℤ

-- raw.partition(":"), none where there is no colon
unfoldable pub partition : String → Option (String × String)
partition String.[] = none
partition (String.◌∷◌ c s) =
    let rest = partition s in
    if eqb (code c) b':'
    then some ("", s)
    else (elim rest [ none ↦ none | some (mac, body) ↦ some (String.◌∷◌ c mac, body) ])

unfoldable pub is_ascii : String → Bool
is_ascii String.[] = true
is_ascii (String.◌∷◌ c s) = ltb (code c) 128 && is_ascii s

-- hmac.compare_digest(a, b), which raises TypeError for texts that are not ASCII
unfoldable pub compare_digest : String → String → Option Bool
unfolding is_ascii
compare_digest a b = if is_ascii a && is_ascii b then some (a == b) else none

abbrev pub choose : {S A : Type 0} → Bool → Exec S A → Exec S A → Exec S A
choose true m n s = m s
choose false m n s = n s

abbrev pub token_key : String → String
token_key token = followed_by "gateway:iam:" token

abbrev pub api_key_key : String → String
api_key_key key_hash = followed_by "gateway:iam:apikey:" key_hash

-- What an API key's entry is signed for, in place of a token.
abbrev pub api_key_subject : String → String
api_key_subject key_hash = followed_by "apikey:" key_hash

module _ {S : Type 0} (out : Outside S) where
  -- str(value)
  unfoldable pub text_of : Json → String
  text_of (str s) = s
  text_of null = out.print null
  text_of (bool b) = out.print (bool b)
  text_of (int z) = out.print (int z)
  text_of (float x) = out.print (float x)
  text_of (arr l) = out.print (arr l)
  text_of (obj fs) = out.print (obj fs)

  unfoldable pub sign_cache_entry : String → String → String
  sign_cache_entry token body = out.mac (followed_by token (followed_by "\n" body))

  unfoldable pub evict : String → Exec S Unit
  evict token = catch (out.cache.delete (token_key token)) (pure tt)

  unfoldable pub evict_api_key : String → Exec S Unit
  evict_api_key key_hash = catch (out.cache.delete (api_key_key key_hash)) (pure tt)

  -- The body of an entry, by whether its MAC is the expected one.
  unfoldable pub trusted_body : Exec S Unit → String → Option Bool → Exec S Json
  trusted_body evict body none = raise
  trusted_body evict body (some false) = evict >> pure null
  trusted_body evict body (some true) = or_raise (out.loads body)

  unfoldable pub checked_parts : Exec S Unit → String → Option (String × String) → Exec S Json
  unfolding trusted_body compare_digest sign_cache_entry
  checked_parts evict subject none = evict >> pure null
  checked_parts evict subject (some (mac, body)) =
      trusted_body evict body (compare_digest mac (sign_cache_entry subject body))

  -- What both caches make of the text that Redis returns; None is `null`.
  unfoldable pub checked_entry : Exec S Unit → String → Option String → Exec S Json
  unfolding checked_parts partition
  checked_entry evict subject none = pure null
  checked_entry evict subject (some raw) =
      choose (raw == "") (pure null) (checked_parts evict subject (partition raw))

  abbrev pub read_cache : Exec S Unit → String → String → Exec S Json
  read_cache evict subject key =
      catch (out.cache.get key >>= checked_entry evict subject) (pure null)

  unfoldable pub get_cached : String → Exec S Json
  unfolding checked_entry evict
  get_cached token = read_cache (evict token) token (token_key token)

  unfoldable pub get_cached_api_key : String → Exec S Json
  unfolding checked_entry evict_api_key
  get_cached_api_key key_hash =
      read_cache (evict_api_key key_hash) (api_key_subject key_hash) (api_key_key key_hash)

  -- f"{mac}:{body}"
  unfoldable pub signed_entry : String → String → String
  unfolding sign_cache_entry
  signed_entry subject body = followed_by (sign_cache_entry subject body) (followed_by ":" body)

  unfoldable pub set_cached : String → Json → ℤ → Exec S Unit
  unfolding signed_entry
  set_cached token user ttl =
      catch (out.cache.setex (token_key token) ttl (signed_entry token (out.dumps user))) (pure tt)

  unfoldable pub set_cached_api_key : String → Json → ℤ → Exec S Unit
  unfolding signed_entry
  set_cached_api_key key_hash user ttl =
      choose (ltb_ℤ (pos 0) ttl)
        (catch
          (out.cache.setex (api_key_key key_hash) ttl
            (signed_entry (api_key_subject key_hash) (out.dumps user)))
          (pure tt))
        (pure tt)

  -- for attempt in range(n): only a time-out of attempt 0 goes on to the next
  module _ (post : ℕ → Posted) (use_answer : ℕ → Option Json → Exec S Json) where
    unfoldable pub after_attempt : Bool → Exec S Json → Posted → Exec S Json
    after_attempt first retried timed_out = choose first retried (pure null)
    after_attempt first retried broken = pure null
    after_attempt first retried (answered status body) = catch (use_answer status body) (pure null)

    unfoldable pub attempts_from : ℕ → ℕ → Exec S Json
    unfolding after_attempt
    attempts_from zero attempt = pure null
    attempts_from (suc left) attempt =
        let retried = attempts_from left (suc attempt) in
        after_attempt (eqb attempt 0) retried (post attempt)
