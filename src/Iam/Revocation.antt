-- ===== src/Iam/Revocation.antt =====
-- A revoked token or API key is asked for again.
use omnibioai_api_gateway.Prelude.{
  ◌≡◌, sym, ◌∙◌, ap, inl, inr, String, true, false, none, some, List, ◌∷◌, ◌++◌, not, ◌&&◌, ◌==◌,
  if◌then◌else◌, eq_refl, Bool-cases, arith,
}
use mathlib.Core.Path.{subst}
use omnibioai_api_gateway.Json.{Json, Fields, null, str, obj, find, get_or, truthy}
use omnibioai_api_gateway.Exec.{Exec, pure}
use omnibioai_api_gateway.Exec.Keeps.{Keeps, pure-Keeps, bind-after, catch-after, catch-done}
use omnibioai_api_gateway.RequestState.{is_api_key}
use omnibioai_api_gateway.Iam.{
  api_key_subject, Outside, choose, text_of, token_key, api_key_key, evict, evict_api_key,
  get_cached, get_cached_api_key, checked_entry, read_cache,
}
use omnibioai_api_gateway.Iam.Validate.{validate}
use omnibioai_api_gateway.Iam.ApiKeys.{validate_api_key}
use omnibioai_api_gateway.Iam.Trust.{NullOr, IsConfirmed, validate_remotely-NullOr}
use omnibioai_api_gateway.Iam.KeyTrust.{IsExchanged, exchange-NullOr}
use omnibioai_api_gateway.Iam.CacheLaws.{CacheLaws}
use omnibioai_api_gateway.Iam.Invalidation.{
  Message, key_hash_in, on_invalidate, handle_fields, read_message, handle_message,
  subscribe_invalidation,
}
use omnibioai_api_gateway.Iam.Keeps.{choose-Keeps, evict-Keeps}
use omnibioai_api_gateway.Iam.Invalidation.Keeps.{on_key_hash-Keeps, subscribe-revoked}

get_or_found :
    (key : String) (d : Json) (fs : Fields) (v : Json) → find key fs ≡ some v → get_or key d fs ≡ v
get_or_found key d fs v h = rw (get_or, h)

key_hash_found :
    (fs : Fields) (key_hash : String)
    → find "api_key_hash" fs ≡ some (str key_hash)
    → (key_hash == "") ≡ false
    → key_hash_in fs ≡ str key_hash
key_hash_found fs key_hash h proper =
    let found = get_or_found "api_key_hash" null fs (str key_hash) h in
    ap (λ j. if truthy j then j else str "") found ∙ rw proper

module _ {S : Type 0} (out : Outside S) where
  module _ (laws : CacheLaws out.cache) where
    -- Nothing can be read under the key.
    record IsGone (key : String) (s : S) : Type 0 where
      up : laws.IsUp s
      absent : laws.view s key ≡ none

    delete-IsGone : (key k : String) → Keeps (IsGone key) (out.cache.delete k)
    delete-IsGone key k s h = record {
      up = laws.delete_up k s h.up;
      absent = rw (laws.delete_removes k key s h.up) (ground (arith, h.absent));
    }

    deleted-IsGone : (key : String) (s : S) → laws.IsUp s → IsGone key (out.cache.delete key s).1
    deleted-IsGone key s up = record {
      up = laws.delete_up key s up;
      absent = rw (laws.delete_removes key key s up, eq_refl key);
    }

    absent-NullOr :
        (key : String) (ev : Exec S Unit) (subject : String) (s : S)
        → IsGone key s
        → (read_cache out ev subject key s).0 ≡ some null
    absent-NullOr key ev subject s h =
        unfold checked_entry in rw (laws.get_returns key s h.up, h.absent)

    evict-IsGone :
        (token : String) (s : S) → laws.IsUp s → IsGone (token_key token) (evict out token s).1
    unfolding evict
    evict-IsGone token s up =
        catch-after (IsGone (token_key token)) (out.cache.delete (token_key token)) (pure tt) s
          (deleted-IsGone (token_key token) s up) (pure-Keeps (IsGone (token_key token)) tt)

    evict_api_key-IsGone :
        (key_hash : String) (s : S)
        → laws.IsUp s
        → IsGone (api_key_key key_hash) (evict_api_key out key_hash s).1
    unfolding evict_api_key
    evict_api_key-IsGone key_hash s up =
        catch-after (IsGone (api_key_key key_hash)) (out.cache.delete (api_key_key key_hash))
          (pure tt) s (deleted-IsGone (api_key_key key_hash) s up)
          (pure-Keeps (IsGone (api_key_key key_hash)) tt)

    -- The message is a published one that names the token.
    pub record Revokes (token : String) (m : Message) : Type 0 where
      pub message : (m.kind == "message") ≡ true
      pub fields : Fields
      pub parsed : out.loads m.content ≡ some (obj fields)
      pub named : find "token" fields ≡ some (str token)
      pub proper : (token == "") ≡ false

    -- The same for the hash of an API key.
    pub record RevokesKey (key_hash : String) (m : Message) : Type 0 where
      pub message : (m.kind == "message") ≡ true
      pub fields : Fields
      pub parsed : out.loads m.content ≡ some (obj fields)
      pub named : find "api_key_hash" fields ≡ some (str key_hash)
      pub proper : (key_hash == "") ≡ false

    on_invalidate-token :
        (token : String) (u h : Json) (s : S)
        → (token == "") ≡ false
        → laws.IsUp s
        → IsGone (token_key token) (on_invalidate out u (str token) h s).1
    unfolding on_invalidate text_of
    on_invalidate-token token u h s proper up = rw proper (
        bind-after (IsGone (token_key token)) (evict out token) _ s (evict-IsGone token s up) (λ _.
          on_key_hash-Keeps out (IsGone (token_key token)) (delete-IsGone (token_key token)) h))

    handle_fields-token :
        (token : String) (fs : Fields) (s : S)
        → find "token" fs ≡ some (str token)
        → (token == "") ≡ false
        → laws.IsUp s
        → IsGone (token_key token) (handle_fields out fs s).1
    unfolding handle_fields
    handle_fields-token token fs s named proper up =
        subst
          (λ t.
            IsGone (token_key token)
              (on_invalidate out (get_or "user_id" (str "") fs) t (key_hash_in fs) s).1)
          (sym (get_or_found "token" (str "") fs (str token) named))
          (on_invalidate-token token (get_or "user_id" (str "") fs) (key_hash_in fs) s proper up)

    handle_message-token :
        (token : String) (m : Message) (r : Revokes token m) (s : S)
        → laws.IsUp s
        → IsGone (token_key token) (handle_message out m s).1
    unfolding handle_message read_message handle_fields
    handle_message-token token m r s up =
        rw (r.message, r.parsed)
          (catch-after (IsGone (token_key token)) (handle_fields out r.fields) (pure tt) s
            (handle_fields-token token r.fields s r.named r.proper up)
            (pure-Keeps (IsGone (token_key token)) tt))

    evicting-done :
        (t : Json) (s : S) → (choose (truthy t) (evict out (text_of out t)) (pure tt) s).0 ≡ some tt
    unfolding evict
    evicting-done t s = elim (Bool-cases (truthy t)) [
      | inl given ↦ rw given (catch-done (out.cache.delete (token_key (text_of out t))) s)
      | inr missing ↦ rw missing
    ]

    on_invalidate-key :
        (key_hash : String) (u t : Json) (s : S)
        → (key_hash == "") ≡ false
        → laws.IsUp s
        → IsGone (api_key_key key_hash) (on_invalidate out u t (str key_hash) s).1
    unfolding on_invalidate text_of
    on_invalidate-key key_hash u t s proper up =
        rw (evicting-done t s, proper)
          (evict_api_key-IsGone key_hash _ (
            choose-Keeps laws.IsUp (truthy t) (evict out (text_of out t)) (pure tt)
              (evict-Keeps out laws.IsUp laws.delete_up (text_of out t)) (pure-Keeps laws.IsUp tt) s
              up))

    handle_fields-key :
        (key_hash : String) (fs : Fields) (s : S)
        → find "api_key_hash" fs ≡ some (str key_hash)
        → (key_hash == "") ≡ false
        → laws.IsUp s
        → IsGone (api_key_key key_hash) (handle_fields out fs s).1
    unfolding handle_fields
    handle_fields-key key_hash fs s named proper up =
        subst
          (λ h.
            IsGone (api_key_key key_hash)
              (on_invalidate out (get_or "user_id" (str "") fs) (get_or "token" (str "") fs) h s).1)
          (sym (key_hash_found fs key_hash named proper))
          (on_invalidate-key key_hash (get_or "user_id" (str "") fs) (get_or "token" (str "") fs) s
            proper up)

    handle_message-key :
        (key_hash : String) (m : Message) (r : RevokesKey key_hash m) (s : S)
        → laws.IsUp s
        → IsGone (api_key_key key_hash) (handle_message out m s).1
    unfolding handle_message read_message handle_fields
    handle_message-key key_hash m r s up =
        rw (r.message, r.parsed)
          (catch-after (IsGone (api_key_key key_hash)) (handle_fields out r.fields) (pure tt) s
            (handle_fields-key key_hash r.fields s r.named r.proper up)
            (pure-Keeps (IsGone (api_key_key key_hash)) tt))

    -- After messages of which one, wherever it stands among others that may be malformed, names a
    -- token that is not empty, a Redis that is up has no identity for it: `validate` returns None
    -- or what the auth service then confirms, and no earlier answer.
    pub validate-revoked :
        (token : String) (earlier later : List Message) (m : Message)
        → Revokes token m
        → (s : S) → laws.IsUp s
        → NullOr out
            (IsConfirmed out token)
            (validate out token (subscribe_invalidation out (earlier ++ m ∷ later) s).1).0
    unfolding validate get_cached
    validate-revoked token earlier later m r s up =
        let gone =
          subscribe-revoked out laws.IsUp (IsGone (token_key token)) laws.delete_up
            (delete-IsGone (token_key token)) m (handle_message-token token m r) earlier later s
            up in
        rw (absent-NullOr (token_key token) (evict out token) token _ gone)
          (validate_remotely-NullOr out token _)

    -- After messages of which one, wherever it stands among others that may be malformed, names the hash of an
    -- API key, a Redis that is up has no identity for this key: `validate_api_key` returns None or what the
    -- exchange then answers with status 200, and no earlier answer.
    pub validate_api_key-revoked :
        (api_key : String) (earlier later : List Message) (m : Message)
        → RevokesKey (out.sha256 api_key) m
        → (s : S) → laws.IsUp s
        → NullOr out
            (IsExchanged out api_key)
            (validate_api_key out api_key (subscribe_invalidation out (earlier ++ m ∷ later) s).1).0
    unfolding validate_api_key get_cached_api_key
    validate_api_key-revoked api_key earlier later m r s up =
        let key = api_key_key (out.sha256 api_key) in
        let gone =
          subscribe-revoked out laws.IsUp (IsGone key) laws.delete_up (delete-IsGone key) m
            (handle_message-key (out.sha256 api_key) m r) earlier later s up in
        elim (Bool-cases (not (out.exchange_secret == "") && is_api_key api_key)) [
          | inr closed ↦ inl (rw closed)
          | inl asked ↦
              rw
                (
                  asked,
                  absent-NullOr key (evict_api_key out (out.sha256 api_key))
                      (api_key_subject (out.sha256 api_key)) _ gone,
                )
                (exchange-NullOr out api_key _)
        ]
