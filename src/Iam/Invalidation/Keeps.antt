-- ===== src/Iam/Invalidation/Keeps.antt =====
-- What deletions keep, handling messages keeps too.
use omnibioai_api_gateway.Prelude.{
  ◌≡◌, inl, inr, String, some, List, [], ◌∷◌, ◌++◌, ◌==◌, Bool-cases,
}
use omnibioai_api_gateway.Json.{Json, Fields, str, get_or, truthy, fields_of}
use omnibioai_api_gateway.Exec.{pure, or_raise}
use omnibioai_api_gateway.Exec.Keeps.{Keeps, pure-Keeps, bind-Keeps, catch-Keeps, catch-done}
use omnibioai_api_gateway.Iam.{Outside, choose, text_of, evict, evict_api_key}
use omnibioai_api_gateway.Iam.Invalidation.{
  Message, key_hash_in, on_invalidate, handle_fields, read_message, handle_message,
  subscribe_invalidation,
}
use omnibioai_api_gateway.Iam.Keeps.{choose-Keeps, evict-Keeps, evict_api_key-Keeps}

module _ {S : Type 0} (out : Outside S) where
  -- Facts that deletions keep are kept by the listener.
  module _ (P : S → Type 0) (delete_keeps : (k : String) → Keeps P (out.cache.delete k)) where
    pub on_key_hash-Keeps :
        (h : Json) → Keeps P (choose (truthy h) (evict_api_key out (text_of out h)) (pure tt))
    on_key_hash-Keeps h =
        choose-Keeps P (truthy h) _ _ (evict_api_key-Keeps out P delete_keeps (text_of out h))
          (pure-Keeps P tt)

    on_invalidate-Keeps : (u t h : Json) → Keeps P (on_invalidate out u t h)
    unfolding on_invalidate
    on_invalidate-Keeps u t h =
        bind-Keeps P (choose (truthy t) (evict out (text_of out t)) (pure tt)) _
          (choose-Keeps P (truthy t) _ _ (evict-Keeps out P delete_keeps (text_of out t))
            (pure-Keeps P tt))
          (λ _. on_key_hash-Keeps h)

    handle_fields-Keeps : (fs : Fields) → Keeps P (handle_fields out fs)
    unfolding handle_fields
    handle_fields-Keeps fs =
        on_invalidate-Keeps (get_or "user_id" (str "") fs) (get_or "token" (str "") fs)
          (key_hash_in fs)

    read_message-Keeps : (content : String) → Keeps P (read_message out content)
    unfolding read_message
    read_message-Keeps content =
        bind-Keeps P (or_raise (out.loads content)) _ (λ s h. h)
          (λ j. bind-Keeps P (or_raise (fields_of j)) _ (λ s h. h) handle_fields-Keeps)

    handle_message-Keeps : (m : Message) → Keeps P (handle_message out m)
    unfolding handle_message
    handle_message-Keeps m =
        choose-Keeps P (m.kind == "message") _ _
          (catch-Keeps P (read_message out m.content) (pure tt) (read_message-Keeps m.content)
            (pure-Keeps P tt))
          (pure-Keeps P tt)

    subscribe-Keeps : (ms : List Message) → Keeps P (subscribe_invalidation out ms)
    unfolding subscribe_invalidation
    subscribe-Keeps [] = pure-Keeps P tt
    subscribe-Keeps (m ∷ ms) =
        bind-Keeps P (handle_message out m) _ (handle_message-Keeps m) (λ _. subscribe-Keeps ms)

  handle_message-done : (m : Message) (s : S) → (handle_message out m s).0 ≡ some tt
  unfolding handle_message
  handle_message-done m s = elim (Bool-cases (m.kind == "message")) [
    | inl message ↦ rw message (catch-done (read_message out m.content) s)
    | inr other ↦ rw other
  ]

  -- A message that revokes, before and after others: what its handling leaves is kept.
  module _ (Up Gone : S → Type 0) (up : (k : String) → Keeps Up (out.cache.delete k))
      (gone : (k : String) → Keeps Gone (out.cache.delete k)) (m : Message)
      (revokes : (s : S) → Up s → Gone (handle_message out m s).1) where
    pub subscribe-revoked :
        (earlier later : List Message) (s : S)
        → Up s
        → Gone (subscribe_invalidation out (earlier ++ m ∷ later) s).1
    unfolding subscribe_invalidation
    subscribe-revoked [] later s h =
        rw (handle_message-done m s) (subscribe-Keeps Gone gone later _ (revokes s h))
    subscribe-revoked (e ∷ es) later s h =
        rw (handle_message-done e s)
          (subscribe-revoked es later _ (handle_message-Keeps Up up e s h))
