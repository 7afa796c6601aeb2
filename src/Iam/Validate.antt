-- ===== src/Iam/Validate.antt =====
-- `IAMClient.validate` (app/services/iam_client.py): the cache first, then the token's signature and
-- /auth/validate.
use omnibioai_api_gateway.Prelude.{ℕ, String, true, Option, none, some, []}
use omnibioai_api_gateway.Prelude.Int.{pos}
use omnibioai_api_gateway.Json.{
  Json, Fields, null, bool, int, str, arr, obj, nil, field, end, find, get, get_or, truthy,
}
use omnibioai_api_gateway.Exec.{Exec, pure, raise, ◌>>=◌, ◌>>◌}
use omnibioai_api_gateway.Text.{◌^^◌, rstrip, is_slash}
use omnibioai_api_gateway.Iam.{
  choose, text_of, evict, get_cached, set_cached, attempts_from, Post, Outside,
}

module _ {S : Type 0} (out : Outside S) where
  -- The dict that validate makes of /auth/validate's answer, none for a KeyError.
  unfoldable pub org_id_of : Fields → Json
  unfolding text_of
  org_id_of fs = elim (get "org_id" fs) [ null ↦ null | v ↦ str (text_of out v) ]

  unfoldable pub session_user : Fields → Option Json
  unfolding text_of org_id_of
  session_user fs = elim (find "user_id" fs) [
    | none ↦ none
    | some user_id ↦ some (
        obj (
          field "user_id" (str (text_of out user_id)) (
            field "email" (get_or "email" (str "") fs) (
              field "roles" (get_or "roles" (arr nil) fs) (
                field "permissions" (get_or "permissions" (arr nil) fs) (
                  field "org_id" (org_id_of fs) (
                    field "org_role" (get_or "org_role" (arr nil) fs) (
                      field "schema_version" (get_or "schema_version" (int (pos 1)) fs)
                        (field "valid" (bool true) end)))))))))
  ]

  unfoldable pub store_user : String → Option Json → Exec S Json
  unfolding set_cached
  store_user token none = raise
  store_user token (some user) = set_cached out token user (pos 300) >> pure user

  unfoldable pub use_validation : String → ℕ → Option Json → Exec S Json
  unfolding store_user session_user evict
  use_validation token status (some (obj fs)) =
      choose (truthy (get "valid" fs)) (store_user token (session_user fs))
        (evict out token >> pure null)
  use_validation token status _ = raise

  unfoldable pub validate_call : String → Post
  unfolding rstrip
  validate_call token = record {
    url = rstrip is_slash out.base_url ^^ "/auth/validate";
    headers = [];
    json = obj (field "token" (str token) end);
  }

  -- What validate does where the cache has no identity.
  unfoldable pub validate_remotely : String → Exec S Json
  unfolding attempts_from use_validation validate_call
  validate_remotely token =
      choose (out.decode_token token)
        (attempts_from out (λ n. out.post n (validate_call token)) (use_validation token) 2 0)
        (pure null)

  unfoldable pub validate : String → Exec S Json
  unfolding get_cached validate_remotely
  validate token = get_cached out token >>= λ cached.
      choose (truthy cached) (pure cached) (validate_remotely token)
