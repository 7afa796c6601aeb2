-- ===== src/NativeRoutes.antt =====
-- The gateway's own small routes and checks: app/routes/auth_verify.py and app/core/permissions.py.
use omnibioai_api_gateway.Prelude.{
  ℕ, String, Option, none, some, List, [], ◌∷◌, ◌==◌, any, if◌then◌else◌,
}
use omnibioai_api_gateway.Json.{Json, Items, bool, str, arr, obj, nil, cons, field, end}
use omnibioai_api_gateway.Prelude.{true}
use omnibioai_api_gateway.Http.{Identity, State}

abbrev pub texts : List String → Items
texts [] = nil
texts (s ∷ ss) = cons (str s) (texts ss)

-- `GET /auth/verify`, none where no middleware has set a user
pub auth_verify : State → Option Json
auth_verify st = elim st.user [
  | none ↦ none
  | some user ↦ some (
      obj (
        field "authenticated" (bool true) (
          field "user"
            (obj (field "id" (str user.user_id) (field "roles" (arr (texts user.roles)) end)))
            end)))
]

-- An HTTPException by its status, or the identity.
pub data Permitted : Type 0 where
  http_error : ℕ → Permitted
  permitted : Identity → Permitted

-- The dependency that `require_permission(permission)` returns.
pub require_permission : String → Option Identity → Permitted
require_permission permission none = http_error 401
require_permission permission (some identity) =
    if any (λ p. p == permission) identity.permissions then permitted identity else http_error 403
