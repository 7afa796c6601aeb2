-- ===== src/Iam/ApiKeys.antt =====
-- `IAMClient.validate_api_key` (app/services/iam_client.py): the cache first, then the exchange of the
-- key for an access token.
use omnibioai_api_gateway.Prelude.{
  ℕ, zero, suc, ◌/◌, String, true, false, Option, none, some, [], ◌∷◌, ◌==◌, not, ◌&&◌,
  if◌then◌else◌, eqb,
}
use omnibioai_api_gateway.Prelude.Int.{ℤ, pos, negsuc, ltb_ℤ, ◌-ℤ◌}
use omnibioai_api_gateway.Json.{
  Json, Items, Fields, null, bool, int, float, finite, str, arr, obj, nil, cons, field, end, find,
  get_or, truthy,
}
use omnibioai_api_gateway.Exec.{Exec, pure, raise, ◌>>=◌, ◌>>◌}
use omnibioai_api_gateway.Text.{◌^^◌, rstrip, is_slash}
use omnibioai_api_gateway.RequestState.{is_api_key}
use omnibioai_api_gateway.Iam.{
  choose, text_of, evict_api_key, get_cached_api_key, set_cached_api_key, attempts_from, Post,
  Outside,
}

-- list(value), where None and other values without elements raise
abbrev pub letters : String → Items
letters String.[] = nil
letters (String.◌∷◌ c s) = cons (str (String.◌∷◌ c "")) (letters s)

abbrev pub keys_of : Fields → Items
keys_of end = nil
keys_of (field k v fs) = cons (str k) (keys_of fs)

abbrev pub list_of : Json → Option Items
list_of (arr l) = some l
list_of (str s) = some (letters s)
list_of (obj fs) = some (keys_of fs)
list_of _ = none

-- m / 2 ^ k towards zero
abbrev pub truncate : ℤ → ℕ → ℤ
truncate z zero = z
truncate (pos m) (suc k) = truncate (pos (m / 2)) k
truncate (negsuc zero) (suc k) = pos 0
truncate (negsuc (suc m)) (suc k) = truncate (negsuc (m / 2)) k

-- min(a, b)
abbrev pub min_ℤ : ℤ → ℤ → ℤ
min_ℤ a b = if ltb_ℤ b a then b else a

module _ {S : Type 0} (out : Outside S) where
  -- int(value)
  unfoldable pub int_of : Json → Option ℤ
  int_of (int z) = some z
  int_of (bool true) = some (pos 1)
  int_of (bool false) = some (pos 0)
  int_of (float (finite m k)) = some (truncate m k)
  int_of (str s) = out.parse_int s
  int_of _ = none

  -- The dict that validate_api_key makes of an exchange's answer; none for a KeyError or TypeError.
  unfoldable pub key_user_of :
      Option Json → Option Items → Option Json → Option Json → Option Json → Json → Option Json
  unfolding text_of
  key_user_of (some user_id) (some permissions) (some organization_id) (some api_key_id)
        (some access_token) test_mode =
      some (
        obj (
          field "user_id" (str (text_of out user_id)) (
            field "email" (str "") (
              field "roles" (arr nil) (
                field "permissions" (arr permissions) (
                  field "org_id" (str (text_of out organization_id)) (
                    field "org_role" (arr nil) (
                      field "schema_version" (int (pos 2)) (
                        field "valid" (bool true) (
                          field "token_type" (str "api_key") (
                            field "api_key_id" api_key_id (
                              field "access_token" access_token
                                (field "test_mode" (bool (truthy test_mode)) end)))))))))))))
  key_user_of _ _ _ _ _ _ = none

  unfoldable pub key_user : Fields → Option Json
  unfolding key_user_of
  key_user fs =
      key_user_of (find "user_id" fs) (list_of (get_or "permissions" (arr nil) fs))
        (find "organization_id" fs) (find "api_key_id" fs) (find "access_token" fs)
        (get_or "test_mode" (bool false) fs)

  unfoldable pub store_key_user : String → Option Json → Option ℤ → Exec S Json
  unfolding set_cached_api_key
  store_key_user key_hash (some user) (some expires_in) =
      set_cached_api_key out key_hash user (min_ℤ out.api_key_cache_ttl (expires_in -ℤ pos 30))
      >> pure user
  store_key_user key_hash _ _ = raise

  unfoldable pub use_data : String → Option Json → Exec S Json
  unfolding store_key_user key_user int_of
  use_data key_hash (some (obj fs)) =
      store_key_user key_hash (key_user fs) (int_of (get_or "expires_in" (int (pos 0)) fs))
  use_data key_hash _ = raise

  unfoldable pub use_exchange : String → ℕ → Option Json → Exec S Json
  unfolding use_data evict_api_key
  use_exchange key_hash status body =
      choose (eqb status 200) (use_data key_hash body) (evict_api_key out key_hash >> pure null)

  unfoldable pub exchange_call : String → Post
  unfolding rstrip
  exchange_call api_key = record {
    url = rstrip is_slash out.base_url ^^ "/auth/api-keys/exchange";
    headers = ("X-Api-Key-Exchange-Secret", out.exchange_secret) ∷ [];
    json = obj (field "api_key" (str api_key) end);
  }

  unfoldable pub exchange : String → Exec S Json
  unfolding attempts_from use_exchange exchange_call
  exchange api_key =
      attempts_from out (λ n. out.post n (exchange_call api_key))
        (use_exchange (out.sha256 api_key)) 2 0

  unfoldable pub validate_api_key : String → Exec S Json
  unfolding get_cached_api_key exchange is_api_key
  validate_api_key api_key =
      choose (not (out.exchange_secret == "") && is_api_key api_key)
        (get_cached_api_key out (out.sha256 api_key) >>= λ cached.
          choose (truthy cached) (pure cached) (exchange api_key))
        (pure null)
