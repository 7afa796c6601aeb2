-- ===== src/Iam/Trust.antt =====
-- Whose word validate and validate_api_key take for an identity.
use omnibioai_api_gateway.Prelude.{
  ℕ, zero, suc, ◌+◌, ◌<◌, ◌≡◌, refl, ◌⊎◌, inl, inr, String, true, false, Option, none, some, ◌==◌,
  eqb, arith, eq_iff, Bool-cases, Option-cases,
}
use omnibioai_api_gateway.Prelude.Int.{ℤ, pos, ltb_ℤ}
use omnibioai_api_gateway.Json.{Json, Fields, null, obj, get, truthy}
use omnibioai_api_gateway.Exec.{Exec, pure, catch, ◌>>◌}
use omnibioai_api_gateway.Exec.Keeps.{catch-done}
use omnibioai_api_gateway.Iam.{
  Posted, answered, timed_out, broken, Outside, partition, compare_digest, token_key, api_key_key,
  api_key_subject, evict, sign_cache_entry, trusted_body, checked_parts, checked_entry, read_cache,
  get_cached, set_cached, set_cached_api_key, attempts_from, after_attempt, signed_entry,
}
use omnibioai_api_gateway.Iam.Validate.{
  session_user, store_user, use_validation, validate_call, validate_remotely, validate,
}

compare_digest-true : (a b : String) → compare_digest a b ≡ some true → a ≡ b
unfolding compare_digest
compare_digest-true a b h = ground (arith, eq_iff a b)

pub Posted-cases :
    (p : Posted)
    → ((p ≡ timed_out) ⊎ (p ≡ broken))
      ⊎ ((status : ℕ) × (body : Option Json) × (p ≡ answered status body))
Posted-cases timed_out = inl (inl refl)
Posted-cases broken = inl (inr refl)
Posted-cases (answered status body) = inr (status, body, refl)

module _ {S : Type 0} (out : Outside S) where
  -- The entry that is read carries the MAC of its own body under this subject.
  pub record IsSigned (subject key : String) (s : S) (j : Json) : Type 0 where
    pub raw : String
    pub mac : String
    pub body : String
    pub read : (out.cache.get key s).0 ≡ some (some raw)
    pub parts : partition raw ≡ some (mac, body)
    pub signed : mac ≡ sign_cache_entry out subject body
    pub parsed : out.loads body ≡ some j

  -- A result that is None, or an identity for which P holds.
  abbrev pub NullOr : (Json → Type 0) → Option Json → Type 0
  NullOr P r = (r ≡ some null) ⊎ ((j : Json) × (r ≡ some j) × P j)

  pub evicted_null :
      (ev : Exec S Unit) (s : S) → (catch (ev >> pure null) (pure null) s).0 ≡ some null
  evicted_null ev s = elim (Option-cases (ev s).0) [
    | inl raised ↦ rw raised
    | inr (u, done) ↦ rw done
  ]

  module _ (ev : Exec S Unit) (subject key : String) where
    entry-NullOr :
        (raw : String) (s s' : S)
        → (out.cache.get key s).0 ≡ some (some raw)
        → NullOr
            (IsSigned subject key s)
            (catch (checked_entry out ev subject (some raw)) (pure null) s').0
    unfolding checked_entry checked_parts trusted_body
    entry-NullOr raw s s' read = elim (Bool-cases (raw == "")) [
      | inl blank ↦ inl (rw blank)
      | inr given ↦ elim (Option-cases (partition raw)) [
        | inl legacy ↦ inl (rw (given, legacy) (evicted_null ev s'))
        | inr ((mac, body), parts) ↦
            elim (Option-cases (compare_digest mac (sign_cache_entry out subject body))) [
              | inl raised ↦ inl (rw (given, parts, raised))
              | inr (false, forged) ↦ inl (rw (given, parts, forged) (evicted_null ev s'))
              | inr (true, genuine) ↦ elim (Option-cases (out.loads body)) [
                | inl garbled ↦ inl (rw (given, parts, genuine, garbled))
                | inr (j, parsed) ↦ inr (
                  j,
                  rw (given, parts, genuine, parsed),
                  record {
                    raw = raw;
                    mac = mac;
                    body = body;
                    read = read;
                    parts = parts;
                    signed = compare_digest-true mac _ genuine;
                    parsed = parsed;
                  },
                )
              ]
            ]
      ]
    ]

    pub read_cache-NullOr :
        (s : S) → NullOr (IsSigned subject key s) (read_cache out ev subject key s).0
    read_cache-NullOr s = elim (Option-cases (out.cache.get key s).0) [
      | inl raised ↦ inl (rw raised)
      | inr (none, missing) ↦ inl (unfold checked_entry in rw missing)
      | inr (some raw, read) ↦ rw read (entry-NullOr raw s (out.cache.get key s).1 read)
    ]

  module _ (post : ℕ → Posted) (use_answer : ℕ → Option Json → Exec S Json) where
    -- An attempt that was answered, and what the loop returns then.
    pub record IsAnswered (bound : ℕ) (s : S) (r : Option Json × S) : Type 0 where
      pub attempt : ℕ
      pub status : ℕ
      pub body : Option Json
      pub within : attempt < bound
      pub reply : post attempt ≡ answered status body
      pub result : r ≡ catch (use_answer status body) (pure null) s

    later :
        (b b' : ℕ) (s : S) (r : Option Json × S)
        → b ≡ b'
        → (r ≡ (some null, s)) ⊎ IsAnswered b s r
        → (r ≡ (some null, s)) ⊎ IsAnswered b' s r
    later b b' s r e h = rw (← e) h

    pub attempts_from-NullOr :
        (left attempt : ℕ) (s : S)
        → (attempts_from out post use_answer left attempt s ≡ (some null, s))
          ⊎ IsAnswered (attempt + left) s (attempts_from out post use_answer left attempt s)
    unfolding attempts_from after_attempt
    attempts_from-NullOr zero attempt s = inl refl
    attempts_from-NullOr (suc left) attempt s = elim (Posted-cases (post attempt)) [
      | inl (inl late) ↦ elim (Bool-cases (eqb attempt 0)) [
        | inl first ↦
            rw (late, first)
              (later (suc attempt + left) (attempt + suc left) s _ (omega arith)
                (attempts_from-NullOr left (suc attempt) s))
        | inr second ↦ inl (rw (late, second))
      ]
      | inl (inr failed) ↦ inl (rw failed)
      | inr (status, body, replied) ↦ inr (record {
        attempt = attempt;
        status = status;
        body = body;
        within = omega arith;
        reply = replied;
        result = rw replied;
      })
    ]

  pub set_cached-done :
      (token : String) (user : Json) (ttl : ℤ) (s : S)
      → (set_cached out token user ttl s).0 ≡ some tt
  unfolding set_cached
  set_cached-done token user ttl s =
      catch-done (out.cache.setex (token_key token) ttl (signed_entry out token (out.dumps user))) s

  pub set_cached_api_key-done :
      (key_hash : String) (user : Json) (ttl : ℤ) (s : S)
      → (set_cached_api_key out key_hash user ttl s).0 ≡ some tt
  unfolding set_cached_api_key
  set_cached_api_key-done key_hash user ttl s = elim (Bool-cases (ltb_ℤ (pos 0) ttl)) [
    | inl alive ↦ rw alive (
        catch-done
          (out.cache.setex (api_key_key key_hash) ttl
            (signed_entry out (api_key_subject key_hash) (out.dumps user)))
          s)
    | inr dead ↦ rw dead
  ]

  -- /auth/validate, asked at most twice, answered that the token is valid.
  pub record IsConfirmed (token : String) (j : Json) : Type 0 where
    pub decoded : out.decode_token token ≡ true
    pub attempt : ℕ
    pub within : attempt < 2
    pub status : ℕ
    pub fields : Fields
    pub reply : out.post attempt (validate_call out token) ≡ answered status (some (obj fields))
    pub valid : truthy (get "valid" fields) ≡ true
    pub user : session_user out fields ≡ some j

  use_validation-NullOr :
      (token : String) (decoded : out.decode_token token ≡ true) (attempt : ℕ)
      (within : attempt < 2) (status : ℕ) (body : Option Json)
      (reply : out.post attempt (validate_call out token) ≡ answered status body) (s : S)
      → NullOr (IsConfirmed token) (catch (use_validation out token status body) (pure null) s).0
  unfolding use_validation store_user
  use_validation-NullOr token decoded attempt within status (some (obj fs)) reply s =
      elim (Bool-cases (truthy (get "valid" fs))) [
        | inr revoked ↦ inl (rw revoked (evicted_null (evict out token) s))
        | inl valid ↦ elim (Option-cases (session_user out fs)) [
          | inl incomplete ↦ inl (rw (valid, incomplete))
          | inr (j, user) ↦ inr (
            j,
            rw (valid, user, set_cached-done token j (pos 300) s),
            record {
              decoded = decoded;
              attempt = attempt;
              within = within;
              status = status;
              fields = fs;
              reply = reply;
              valid = valid;
              user = user;
            },
          )
        ]
      ]
  use_validation-NullOr token decoded attempt within status _ reply s = inl refl

  pub validate_remotely-NullOr :
      (token : String) (s : S) → NullOr (IsConfirmed token) (validate_remotely out token s).0
  unfolding validate_remotely
  validate_remotely-NullOr token s = elim (Bool-cases (out.decode_token token)) [
    | inr undecoded ↦ inl (rw undecoded)
    | inl decoded ↦
        rw decoded
          (elim (attempts_from-NullOr (λ n. out.post n (validate_call out token))
            (use_validation out token) 2 0 s) [
              | inl nothing ↦ inl (rw nothing)
              | inr a ↦
                  rw a.result (
                    use_validation-NullOr token decoded a.attempt a.within a.status a.body a.reply
                      s)
            ])
  ]

  -- The same by a signed entry of its own, or by the auth service.
  pub fallback : {P Q : Json → Type 0} (r : Option Json) → NullOr Q r → NullOr (λ j. P j ⊎ Q j) r
  fallback r (inl nothing) = inl nothing
  fallback r (inr (j, e, q)) = inr (j, e, inr q)

  -- Whatever the cache holds and the auth service answers, `validate` never raises. It returns None, or an
  -- identity that either stands in a cache entry that carries the MAC of this token and of that body, or was
  -- made of an answer of /auth/validate that calls this token valid, in at most two attempts and after the
  -- token's signature was verified.
  pub validate-IsTrusted :
      (token : String) (s : S)
      → NullOr
          (λ j. IsSigned token (token_key token) s j ⊎ IsConfirmed token j)
          (validate out token s).0
  unfolding validate get_cached
  validate-IsTrusted token s =
      elim (read_cache-NullOr (evict out token) token (token_key token) s) [
        | inl absent ↦ rw absent (fallback _ (validate_remotely-NullOr token _))
        | inr (j, cached, entry) ↦ elim (Bool-cases (truthy j)) [
          | inl some_user ↦ inr (j, rw (cached, some_user), inl entry)
          | inr empty ↦ rw (cached, empty) (fallback _ (validate_remotely-NullOr token _))
        ]
      ]
