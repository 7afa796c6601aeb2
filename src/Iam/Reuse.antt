-- ===== src/Iam/Reuse.antt =====
-- A confirmed token is answered from the cache.
use Prim.Native.Char.{code}
use omnibioai_api_gateway.Prelude.{
  ◌≡◌, refl, sym, ap, ◌∙◌, inl, inr, String, true, false, Option, none, some, ◌==◌, eqb, arith,
  eq_refl, eq_iff, Bool-cases, Option-cases, ℕ,
}
use mathlib.Core.Option.{some-injective}
use omnibioai_api_gateway.Prelude.Int.{pos}
use omnibioai_api_gateway.Json.{Json, null, obj, get, truthy}
use omnibioai_api_gateway.Exec.{Exec, pure, catch}
use omnibioai_api_gateway.Exec.Keeps.{catch-state}
use omnibioai_api_gateway.Text.{followed_by}
use omnibioai_api_gateway.Iam.{
  Outside, partition, is_ascii, compare_digest, token_key, sign_cache_entry, signed_entry,
  trusted_body, checked_parts, checked_entry, read_cache, get_cached, set_cached, evict,
}
use omnibioai_api_gateway.Iam.Validate.{
  session_user, store_user, use_validation, validate_call, validate_remotely, validate,
}
use omnibioai_api_gateway.Iam.Trust.{
  IsSigned, read_cache-NullOr, set_cached-done, attempts_from-NullOr, evicted_null,
}
use omnibioai_api_gateway.Iam.Keeps.{evict-Keeps, read_cache-Keeps}
use omnibioai_api_gateway.Iam.CacheLaws.{CacheLaws}

-- What stands behind the first colon comes back.
partition-entry :
    (mac body : String)
    → partition mac ≡ none
    → partition (followed_by mac (followed_by ":" body)) ≡ some (mac, body)
unfolding partition
partition-entry String.[] body h = refl
partition-entry (String.◌∷◌ c mac) body h = elim (Bool-cases (eqb (code c) b':')) [
  | inl colon ↦ ground (arith, h, colon)
  | inr other ↦ elim (Option-cases (partition mac)) [
    | inl free ↦ rw (other, partition-entry mac body free)
    | inr (p, found) ↦ cc (rw (other, found) at h)
  ]
]

not_empty :
    (raw : String) (parts : String × String) → partition raw ≡ some parts → (raw == "") ≡ false
unfolding partition
not_empty String.[] parts h = ground (arith, h)
not_empty (String.◌∷◌ c s) parts h = elim (Bool-cases (String.◌∷◌ c s == "")) [
  | inl same ↦ cc ((eq_iff (String.◌∷◌ c s) "").0 same)
  | inr other ↦ other
]

compare_digest_same : (a : String) → is_ascii a ≡ true → compare_digest a a ≡ some true
unfolding compare_digest
compare_digest_same a h = rw (h, eq_refl a)

module _ {S : Type 0} (out : Outside S) where
  -- A hexdigest has ASCII characters only, and no colon.
  pub record IsHexDigest : Type 0 where
    pub ascii : (text : String) → is_ascii (out.mac text) ≡ true
    pub no_colon : (text : String) → partition (out.mac text) ≡ none

  module _ (laws : CacheLaws out.cache) (hex : IsHexDigest) where
    mac_ascii : (subject body : String) → is_ascii (sign_cache_entry out subject body) ≡ true
    unfolding sign_cache_entry
    mac_ascii subject body = hex.ascii (followed_by subject (followed_by "\n" body))

    mac_no_colon : (subject body : String) → partition (sign_cache_entry out subject body) ≡ none
    unfolding sign_cache_entry
    mac_no_colon subject body = hex.no_colon (followed_by subject (followed_by "\n" body))

    -- An entry with the right MAC is returned, and nothing is written.
    read_cache-entry :
        (ev : Exec S Unit) (subject key raw mac body : String) (j : Json) (s : S)
        → (out.cache.get key s).0 ≡ some (some raw)
        → partition raw ≡ some (mac, body)
        → mac ≡ sign_cache_entry out subject body
        → out.loads body ≡ some j
        → read_cache out ev subject key s ≡ (some j, (out.cache.get key s).1)
    unfolding checked_entry checked_parts trusted_body
    read_cache-entry ev subject key raw mac body j s read parts signed parsed =
        rw
          (
            read,
            not_empty raw (mac, body) parts,
            parts,
            signed,
            compare_digest_same (sign_cache_entry out subject body) (mac_ascii subject body),
            parsed,
          )
          refl

    signed_entry-parts :
        (subject body : String)
        → partition (signed_entry out subject body) ≡ some (sign_cache_entry out subject body, body)
    unfolding signed_entry
    signed_entry-parts subject body =
        partition-entry (sign_cache_entry out subject body) body (mac_no_colon subject body)

    set_cached-entry :
        (token : String) (user : Json) (s : S)
        → laws.IsUp s
        → (out.cache.get (token_key token) (set_cached out token user (pos 300) s).1).0
          ≡ some (some (signed_entry out token (out.dumps user)))
    unfolding set_cached
    set_cached-entry token user s up =
        let key = token_key token in
        let entry = signed_entry out token (out.dumps user) in
        let setting = out.cache.setex key (pos 300) entry in
        rw (catch-state setting s) (
          laws.get_returns key _ (laws.setex_up key 299 entry s up)
          ∙ ap some (laws.setex_stores key 299 entry key s up ∙ rw (eq_refl key)))

    get_cached-set_cached :
        (token : String) (user : Json) (s : S)
        → laws.IsUp s
        → out.loads (out.dumps user) ≡ some user
        → (get_cached out token (set_cached out token user (pos 300) s).1).0 ≡ some user
    unfolding get_cached
    get_cached-set_cached token user s up printed =
        let body = out.dumps user in
        ap (λ r. r.0)
          (read_cache-entry (evict out token) token (token_key token) _ _ body user _
            (set_cached-entry token user s up) (signed_entry-parts token body) refl printed)

    -- What was read from the cache is read again.
    read_cache-again :
        (ev : Exec S Unit) (subject key : String) (j : Json) (s : S)
        → laws.IsUp s
        → IsSigned out subject key s j
        → (read_cache out ev subject key (read_cache out ev subject key s).1).0 ≡ some j
    read_cache-again ev subject key j s up entry =
        let once =
          read_cache-entry ev subject key entry.raw entry.mac entry.body j s entry.read entry.parts
            entry.signed entry.parsed in
        let again =
          laws.get_returns key (out.cache.get key s).1 (laws.get_up key s up)
          ∙ ap some (laws.get_keeps key key s up)
          ∙ sym (laws.get_returns key s up)
          ∙ entry.read in
        rw once (
          ap (λ r. r.0)
            (read_cache-entry ev subject key entry.raw entry.mac entry.body j
              (out.cache.get key s).1 again entry.parts entry.signed entry.parsed))

    use_validation-remembered :
        (token : String) (status : ℕ) (body : Option Json) (j : Json) (s : S)
        → laws.IsUp s
        → out.loads (out.dumps j) ≡ some j
        → truthy j ≡ true
        → (catch (use_validation out token status body) (pure null) s).0 ≡ some j
        → (get_cached out token (catch (use_validation out token status body) (pure null) s).1).0
          ≡ some j
    unfolding use_validation store_user
    use_validation-remembered token status (some (obj fs)) j s up printed proper h =
        elim (Bool-cases (truthy (get "valid" fs))) [
          | inr revoked ↦
              cc (sym (evicted_null out (evict out token) s) ∙ (rw revoked at h), proper)
          | inl valid ↦ elim (Option-cases (session_user out fs)) [
            | inl incomplete ↦ cc (rw (valid, incomplete) at h, proper)
            | inr (user, made) ↦
                let same =
                  some-injective _ _
                    (rw (valid, made, set_cached-done out token user (pos 300) s) at h) in
                rw (valid, made, set_cached-done out token user (pos 300) s)
                  (rw same (get_cached-set_cached token j s up printed))
          ]
        ]
    use_validation-remembered token status _ j s up printed proper h = cc (h, proper)

    validate_remotely-remembered :
        (token : String) (j : Json) (s : S)
        → laws.IsUp s
        → out.loads (out.dumps j) ≡ some j
        → truthy j ≡ true
        → (validate_remotely out token s).0 ≡ some j
        → (get_cached out token (validate_remotely out token s).1).0 ≡ some j
    unfolding validate_remotely
    validate_remotely-remembered token j s up printed proper h =
        elim (Bool-cases (out.decode_token token)) [
          | inr undecoded ↦ cc (undecoded, proper)
          | inl decoded ↦
              elim (attempts_from-NullOr out (λ n. out.post n (validate_call out token))
                (use_validation out token) 2 0 s) [
                  | inl nothing ↦ cc (rw (decoded, nothing) at h, proper)
                  | inr a ↦
                      rw (decoded, a.result)
                        (use_validation-remembered token a.status a.body j s up printed proper
                          (rw (decoded, a.result) at h))
                ]
        ]

    -- In a Redis that is up, a token that `validate` has just accepted is answered from the cache with the same
    -- identity, without the auth service, where MACs are hexdigests and the identity comes back from its
    -- JSON text.
    pub validate-get_cached :
        (token : String) (j : Json) (s : S)
        → laws.IsUp s
        → out.loads (out.dumps j) ≡ some j
        → truthy j ≡ true
        → (validate out token s).0 ≡ some j
        → (get_cached out token (validate out token s).1).0 ≡ some j
    unfolding validate get_cached
    validate-get_cached token j s up printed proper h =
        let up_after =
          read_cache-Keeps out laws.IsUp (evict out token)
            (evict-Keeps out laws.IsUp laws.delete_up token) token (token_key token)
            (laws.get_up (token_key token)) s up in
        elim (read_cache-NullOr out (evict out token) token (token_key token) s) [
          | inl absent ↦
              rw absent
                (validate_remotely-remembered token j _ up_after printed proper (rw absent at h))
          | inr (user, cached, entry) ↦ elim (Bool-cases (truthy user)) [
            | inl some_user ↦
                let same = some-injective _ _ (rw (cached, some_user) at h) in
                rw (cached, some_user)
                  (rw same at
                    (read_cache-again (evict out token) token (token_key token) user s up entry))
            | inr empty ↦
                rw (cached, empty)
                  (validate_remotely-remembered token j _ up_after printed proper
                    (rw (cached, empty) at h))
          ]
        ]
