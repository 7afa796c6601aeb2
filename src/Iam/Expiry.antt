-- ===== src/Iam/Expiry.antt =====
-- What validate_api_key writes to the cache, and for how long.
use omnibioai_api_gateway.Prelude.{
  ℕ, ◌≡◌, refl, inl, inr, String, true, Option, none, some, ◌==◌, not, ◌&&◌, eqb, eqb→eq, arith,
  Bool-cases,
}
use omnibioai_api_gateway.Prelude.Int.{ℤ, pos, ltb_ℤ, ◌≤ℤ◌, ◌+ℤ◌, ◌-ℤ◌, int_laws}
use omnibioai_api_gateway.Json.{Json, Fields, null, int, obj, get_or, truthy}
use omnibioai_api_gateway.Exec.{pure}
use omnibioai_api_gateway.Exec.Keeps.{Keeps, pure-Keeps, bind-Keeps, catch-Keeps}
use omnibioai_api_gateway.RequestState.{is_api_key}
use omnibioai_api_gateway.Iam.{
  answered, Outside, api_key_key, api_key_subject, evict_api_key, get_cached_api_key, signed_entry,
  set_cached_api_key,
}
use omnibioai_api_gateway.Iam.ApiKeys.{
  int_of, min_ℤ, key_user, store_key_user, use_data, use_exchange, exchange_call, exchange,
  validate_api_key,
}
use omnibioai_api_gateway.Iam.Keeps.{choose-Keeps, read_cache-Keeps, attempts_from-Keeps}

min_ℤ-capped : (a b : ℤ) → min_ℤ a b ≤ℤ a
min_ℤ-capped a b = grind int_laws

min_ℤ-ahead : (a b : ℤ) → min_ℤ a (b -ℤ pos 30) +ℤ pos 30 ≤ℤ b
min_ℤ-ahead a b = grind int_laws

positive_of : (z : ℤ) → ltb_ℤ (pos 0) z ≡ true → pos 1 ≤ℤ z
positive_of z h = ground arith

module _ {S : Type 0} (out : Outside S) (api_key : String) where
  -- The identity of an exchange of this key with status 200, signed for the hash of the key, for a positive
  -- time that is at most API_KEY_CACHE_TTL and ends 30 seconds before the minted token expires.
  pub record IsTimely (ttl : ℤ) (value : String) : Type 0 where
    pub attempt : ℕ
    pub fields : Fields
    pub reply : out.post attempt (exchange_call out api_key) ≡ answered 200 (some (obj fields))
    pub user : Json
    pub made : key_user out fields ≡ some user
    pub entry : value ≡ signed_entry out (api_key_subject (out.sha256 api_key)) (out.dumps user)
    pub lifetime : ℤ
    pub told : int_of out (get_or "expires_in" (int (pos 0)) fields) ≡ some lifetime
    pub positive : pos 1 ≤ℤ ttl
    pub capped : ttl ≤ℤ out.api_key_cache_ttl
    pub ahead : ttl +ℤ pos 30 ≤ℤ lifetime

  module _ (P : S → Type 0) (get_keeps : Keeps P (out.cache.get (api_key_key (out.sha256 api_key))))
      (delete_keeps : Keeps P (out.cache.delete (api_key_key (out.sha256 api_key))))
      (setex_keeps : (ttl : ℤ) (value : String)
        → IsTimely ttl value
        → Keeps P (out.cache.setex (api_key_key (out.sha256 api_key)) ttl value)) where
    evict_key-Keeps : Keeps P (evict_api_key out (out.sha256 api_key))
    unfolding evict_api_key
    evict_key-Keeps =
        catch-Keeps P (out.cache.delete (api_key_key (out.sha256 api_key))) (pure tt) delete_keeps
          (pure-Keeps P tt)

    set_cached_api_key-Keeps :
        (user : Json) (ttl : ℤ)
        → (pos 1 ≤ℤ ttl
            → IsTimely ttl
                (signed_entry out (api_key_subject (out.sha256 api_key)) (out.dumps user)))
        → Keeps P (set_cached_api_key out (out.sha256 api_key) user ttl)
    unfolding set_cached_api_key
    set_cached_api_key-Keeps user ttl timely s h =
        let entry = signed_entry out (api_key_subject (out.sha256 api_key)) (out.dumps user) in
        let setting = out.cache.setex (api_key_key (out.sha256 api_key)) ttl entry in
        elim (Bool-cases (ltb_ℤ (pos 0) ttl)) [
          | inl alive ↦ rw alive (
              catch-Keeps P setting (pure tt)
                (setex_keeps ttl entry (timely (positive_of ttl alive))) (pure-Keeps P tt) s h)
          | inr dead ↦ rw dead h
        ]

    store_key_user-Keeps :
        (attempt : ℕ) (fs : Fields) (user : Option Json) (lifetime : Option ℤ)
        → out.post attempt (exchange_call out api_key) ≡ answered 200 (some (obj fs))
        → key_user out fs ≡ user
        → int_of out (get_or "expires_in" (int (pos 0)) fs) ≡ lifetime
        → Keeps P (store_key_user out (out.sha256 api_key) user lifetime)
    unfolding store_key_user
    store_key_user-Keeps attempt fs (some user) (some lifetime) reply made told =
        bind-Keeps P
          (set_cached_api_key out (out.sha256 api_key) user
            (min_ℤ out.api_key_cache_ttl (lifetime -ℤ pos 30)))
          _
          (set_cached_api_key-Keeps user (min_ℤ out.api_key_cache_ttl (lifetime -ℤ pos 30))
            (λ positive. record {
              attempt = attempt;
              fields = fs;
              reply = reply;
              user = user;
              made = made;
              entry = refl;
              lifetime = lifetime;
              told = told;
              positive = positive;
              capped = min_ℤ-capped out.api_key_cache_ttl (lifetime -ℤ pos 30);
              ahead = min_ℤ-ahead out.api_key_cache_ttl lifetime;
            }))
          (λ _. pure-Keeps P user)
    store_key_user-Keeps attempt fs (some user) none reply made told = λ s h. h
    store_key_user-Keeps attempt fs none lifetime reply made told = λ s h. h

    use_data-Keeps :
        (attempt : ℕ) (body : Option Json)
        → out.post attempt (exchange_call out api_key) ≡ answered 200 body
        → Keeps P (use_data out (out.sha256 api_key) body)
    unfolding use_data
    use_data-Keeps attempt (some (obj fs)) reply =
        store_key_user-Keeps attempt fs _ _ reply refl refl
    use_data-Keeps attempt _ reply = λ s h. h

    use_exchange-Keeps :
        (attempt status : ℕ) (body : Option Json)
        → out.post attempt (exchange_call out api_key) ≡ answered status body
        → Keeps P (use_exchange out (out.sha256 api_key) status body)
    unfolding use_exchange
    use_exchange-Keeps attempt status body reply = elim (Bool-cases (eqb status 200)) [
      | inl accepted ↦
          rw accepted (use_data-Keeps attempt body (rw (eqb→eq status 200 accepted) at reply))
      | inr refused ↦ rw refused (
          bind-Keeps P (evict_api_key out (out.sha256 api_key)) _ evict_key-Keeps
            (λ _. pure-Keeps P null))
    ]

    exchange-Keeps : Keeps P (exchange out api_key)
    unfolding exchange
    exchange-Keeps =
        attempts_from-Keeps out P (λ n. out.post n (exchange_call out api_key))
          (use_exchange out (out.sha256 api_key)) use_exchange-Keeps 2 0

    -- Any fact about the store that reading and deleting the cache entry of this key keep, and that storing a
    -- signed identity of an exchange there keeps, as long as its time to live is positive, at most
    -- API_KEY_CACHE_TTL and ends at least 30 seconds before the minted token expires, is kept by
    -- `validate_api_key`, whatever it returns.
    pub validate_api_key-Keeps : (s : S) → P s → P (validate_api_key out api_key s).1
    unfolding validate_api_key get_cached_api_key
    validate_api_key-Keeps =
        choose-Keeps P (not (out.exchange_secret == "") && is_api_key api_key) _ (pure null)
          (bind-Keeps P (get_cached_api_key out (out.sha256 api_key)) _
            (read_cache-Keeps out P (evict_api_key out (out.sha256 api_key)) evict_key-Keeps
              (api_key_subject (out.sha256 api_key)) (api_key_key (out.sha256 api_key)) get_keeps)
            (λ cached.
              choose-Keeps P (truthy cached) (pure cached) (exchange out api_key)
                (pure-Keeps P cached) exchange-Keeps))
          (pure-Keeps P null)
