-- ===== src/Iam/Invalidation.antt =====
-- `subscribe_invalidation` (app/services/iam_client.py) with the callback `on_invalidate` that
-- app/main.py gives it: messages that take tokens and API keys out of the caches.
pub mod Keeps
use omnibioai_api_gateway.Prelude.{
  ◌≡◌, String, Bool, true, false, List, [], ◌∷◌, ◌==◌, if◌then◌else◌,
}
use omnibioai_api_gateway.Json.{Json, Fields, str, get, get_or, truthy, fields_of}
use omnibioai_api_gateway.Exec.{Exec, pure, or_raise, catch, ◌>>=◌, ◌>>◌}
use omnibioai_api_gateway.Iam.{Outside, choose, text_of, evict, evict_api_key}

-- message["type"] and message["data"]
pub record Message : Type 0 where
  pub kind : String
  pub content : String

abbrev pub key_hash_in : Fields → Json
key_hash_in fs = if truthy (get "api_key_hash" fs) then get "api_key_hash" fs else str ""

module _ {S : Type 0} (out : Outside S) where
  unfoldable pub on_invalidate : Json → Json → Json → Exec S Unit
  unfolding evict evict_api_key text_of
  on_invalidate user_id token api_key_hash =
      choose (truthy token) (evict out (text_of out token)) (pure tt)
      >> choose (truthy api_key_hash) (evict_api_key out (text_of out api_key_hash)) (pure tt)

  unfoldable pub handle_fields : Fields → Exec S Unit
  unfolding on_invalidate
  handle_fields fs =
      on_invalidate (get_or "user_id" (str "") fs) (get_or "token" (str "") fs) (key_hash_in fs)

  -- The `try` block of the loop.
  unfoldable pub read_message : String → Exec S Unit
  unfolding handle_fields
  read_message content =
      or_raise (out.loads content) >>= λ j. or_raise (fields_of j) >>= handle_fields

  unfoldable pub handle_message : Message → Exec S Unit
  unfolding read_message
  handle_message m =
      choose (m.kind == "message") (catch (read_message m.content) (pure tt)) (pure tt)

  -- async for message in pubsub.listen(), over the messages that arrive
  unfoldable pub subscribe_invalidation : List Message → Exec S Unit
  unfolding handle_message
  subscribe_invalidation [] = pure tt
  subscribe_invalidation (m ∷ ms) = handle_message m >> subscribe_invalidation ms
