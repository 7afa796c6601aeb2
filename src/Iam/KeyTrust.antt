-- ===== src/Iam/KeyTrust.antt =====
-- Whose word validate_api_key takes for an API key.
use omnibioai_api_gateway.Prelude.{
  ℕ, ◌<◌, ◌≡◌, refl, ◌⊎◌, inl, inr, String, true, false, Option, some, ◌==◌, not, ◌&&◌, eqb, eqb→eq,
  arith, Bool-cases, Option-cases,
}
use omnibioai_api_gateway.Prelude.Int.{pos, ◌-ℤ◌}
use omnibioai_api_gateway.Json.{Json, Fields, null, int, obj, get_or, truthy}
use omnibioai_api_gateway.Exec.{pure, catch}
use omnibioai_api_gateway.RequestState.{is_api_key}
use omnibioai_api_gateway.Iam.{
  answered, Outside, api_key_key, api_key_subject, evict_api_key, get_cached_api_key,
}
use omnibioai_api_gateway.Iam.ApiKeys.{
  int_of, min_ℤ, key_user, store_key_user, use_data, use_exchange, exchange_call, exchange,
  validate_api_key,
}
use omnibioai_api_gateway.Iam.Trust.{
  NullOr, IsSigned, evicted_null, read_cache-NullOr, attempts_from-NullOr, set_cached_api_key-done,
  fallback,
}

module _ {S : Type 0} (out : Outside S) where
  -- The exchange, asked at most twice, answered 200 for this key.
  pub record IsExchanged (api_key : String) (j : Json) : Type 0 where
    pub attempt : ℕ
    pub within : attempt < 2
    pub fields : Fields
    pub reply : out.post attempt (exchange_call out api_key) ≡ answered 200 (some (obj fields))
    pub user : key_user out fields ≡ some j

  use_data-NullOr :
      (api_key : String) (attempt : ℕ) (within : attempt < 2) (body : Option Json)
      (reply : out.post attempt (exchange_call out api_key) ≡ answered 200 body) (s : S)
      → NullOr out
          (IsExchanged api_key)
          (catch (use_data out (out.sha256 api_key) body) (pure null) s).0
  unfolding use_data store_key_user
  use_data-NullOr api_key attempt within (some (obj fs)) reply s =
      elim (Option-cases (key_user out fs)) [
        | inl incomplete ↦ inl (rw incomplete)
        | inr (j, user) ↦ elim (Option-cases (int_of out (get_or "expires_in" (int (pos 0)) fs))) [
          | inl odd ↦ inl (rw (user, odd))
          | inr (expires_in, lifetime) ↦ inr (
            j,
            rw (
              user,
              lifetime,
              set_cached_api_key-done out (out.sha256 api_key) j
                  (min_ℤ out.api_key_cache_ttl (expires_in -ℤ pos 30)) s,
            ),
            record { attempt = attempt; within = within; fields = fs; reply = reply; user = user },
          )
        ]
      ]
  use_data-NullOr api_key attempt within _ reply s = inl refl

  use_exchange-NullOr :
      (api_key : String) (attempt : ℕ) (within : attempt < 2) (status : ℕ) (body : Option Json)
      (reply : out.post attempt (exchange_call out api_key) ≡ answered status body) (s : S)
      → NullOr out
          (IsExchanged api_key)
          (catch (use_exchange out (out.sha256 api_key) status body) (pure null) s).0
  unfolding use_exchange
  use_exchange-NullOr api_key attempt within status body reply s =
      elim (Bool-cases (eqb status 200)) [
        | inr refused ↦
            inl (rw refused (evicted_null out (evict_api_key out (out.sha256 api_key)) s))
        | inl accepted ↦ rw accepted (
            use_data-NullOr api_key attempt within body (rw (eqb→eq status 200 accepted) at reply)
              s)
      ]

  pub exchange-NullOr :
      (api_key : String) (s : S) → NullOr out (IsExchanged api_key) (exchange out api_key s).0
  unfolding exchange
  exchange-NullOr api_key s =
      elim (attempts_from-NullOr out (λ n. out.post n (exchange_call out api_key))
        (use_exchange out (out.sha256 api_key)) 2 0 s) [
          | inl nothing ↦ inl (rw nothing)
          | inr a ↦
              rw a.result (use_exchange-NullOr api_key a.attempt a.within a.status a.body a.reply s)
        ]

  -- The exchange secret is set, the text is an API key, and its identity stands in an entry that is signed
  -- for the hash of this key, or comes from the exchange.
  pub record IsTrustedKey (api_key : String) (s : S) (j : Json) : Type 0 where
    pub enabled : (out.exchange_secret == "") ≡ false
    pub prefixed : is_api_key api_key ≡ true
    pub source :
        IsSigned out (api_key_subject (out.sha256 api_key)) (api_key_key (out.sha256 api_key)) s j
        ⊎ IsExchanged api_key j

  with_source :
      (api_key : String) (s : S) (r : Option Json)
      → (not (out.exchange_secret == "") && is_api_key api_key) ≡ true
      → NullOr out
          (λ j.
            IsSigned out
              (api_key_subject (out.sha256 api_key))
              (api_key_key (out.sha256 api_key))
              s
              j
            ⊎ IsExchanged api_key j)
          r
      → NullOr out (IsTrustedKey api_key s) r
  with_source api_key s r asked (inl nothing) = inl nothing
  with_source api_key s r asked (inr (j, e, source)) = inr (
    j,
    e,
    record { enabled = ground (arith, asked); prefixed = ground (arith, asked); source = source },
  )

  -- Whatever the cache holds and the auth service answers, `validate_api_key` never raises. It returns None,
  -- or an identity, and then the exchange secret is set, the text has the prefix of an API key, and the
  -- identity either stands in a cache entry that carries the MAC of this key's hash and of that body, or
  -- was made of an answer with status 200 of the exchange of this key, in at most two attempts.
  pub validate_api_key-IsTrusted :
      (api_key : String) (s : S)
      → NullOr out (IsTrustedKey api_key s) (validate_api_key out api_key s).0
  unfolding validate_api_key get_cached_api_key
  validate_api_key-IsTrusted api_key s =
      elim (Bool-cases (not (out.exchange_secret == "") && is_api_key api_key)) [
        | inr closed ↦ inl (rw closed)
        | inl asked ↦ rw asked (
            with_source api_key s _ asked
              (elim (read_cache-NullOr out (evict_api_key out (out.sha256 api_key))
                (api_key_subject (out.sha256 api_key)) (api_key_key (out.sha256 api_key)) s) [
                  | inl absent ↦ rw absent (fallback out _ (exchange-NullOr api_key _))
                  | inr (j, cached, entry) ↦ elim (Bool-cases (truthy j)) [
                    | inl some_user ↦ inr (j, rw (cached, some_user), inl entry)
                    | inr empty ↦ rw (cached, empty) (fallback out _ (exchange-NullOr api_key _))
                  ]
                ]))
      ]
