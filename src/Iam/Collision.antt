-- ===== src/Iam/Collision.antt =====
-- The entries of API keys as entries of tokens: `gateway:iam:apikey:<hash>` is also the cache key of
-- the token `apikey:<hash>`.
use omnibioai_api_gateway.Prelude.{◌≡◌, refl, String, true, false, some}
use omnibioai_api_gateway.Json.{Json, truthy}
use omnibioai_api_gateway.RequestState.{is_api_key}
use omnibioai_api_gateway.Iam.{
  Outside, api_key_subject, get_cached, get_cached_api_key, evict, evict_api_key,
}
use omnibioai_api_gateway.Iam.Validate.{validate}

module _ {S : Type 0} (out : Outside S) where
  -- While the identity of an API key is cached under the hash of the key, `validate` accepts the text
  -- `apikey:` followed by that hash as a session token of this identity, without asking the auth service,
  -- and no prefix sends this text to the check of API keys: whoever knows the hash needs no key.
  pub validate-hash_of_key :
      (key_hash : String) (s : S) (j : Json)
      → (get_cached_api_key out key_hash s).0 ≡ some j
      → truthy j ≡ true
      → (is_api_key (api_key_subject key_hash) ≡ false)
        × ((validate out (api_key_subject key_hash) s).0 ≡ some j)
  unfolding is_api_key validate get_cached get_cached_api_key evict evict_api_key
  validate-hash_of_key key_hash s j cached some_user = (refl, rw (cached, some_user))
