-- ===== src/Mcp.antt =====
-- The hosted MCP endpoint: the bearer check of app/services/mcp_auth.py on top of IAMClient, and the tools
-- of app/services/mcp_server.py. The MCP SDK between them is a parameter, the mounted application.
pub mod Gate
pub mod Tools
mod Examples
use omnibioai_api_gateway.Prelude.{
  ℕ, String, Bool, true, false, Option, none, some, List, [], ◌∷◌, ◌==◌, not, ◌||◌, if◌then◌else◌,
}
use omnibioai_api_gateway.Json.{Json, str, obj, field, end, truthy}
use omnibioai_api_gateway.Dict.{Dict, insert, lookup}
use omnibioai_api_gateway.Exec.{Exec, pure, ◌>>=◌}
use omnibioai_api_gateway.Http.{Response}
use omnibioai_api_gateway.RequestState.{answer_json, bearer_token, is_api_key}
use omnibioai_api_gateway.Iam.{Outside, choose}
use omnibioai_api_gateway.Iam.ApiKeys.{validate_api_key}

-- An ASGI scope; the names of its headers are in lower case.
pub record Scope : Type 0 where
  pub kind : String
  pub path : String
  pub root_path : String
  pub headers : List (String × String)

-- dict(scope["headers"]): a later header of the same name wins
unfoldable pub dict_of : List (String × String) → Dict String → Dict String
dict_of [] d = d
dict_of ((k, v) ∷ hs) d = dict_of hs (insert k v d)

-- The mounted application: it is given the value of `_current_api_key` and its scope.
abbrev pub Mounted : Type 0 → Type 0
Mounted S = Option String → Scope → Exec S Response

unfoldable pub unauthorized : String → Response
unauthorized message = answer_json 401 (field "error" (str message) end)

unfoldable pub scope_token : Scope → String
unfolding dict_of
scope_token scope = bearer_token (lookup "authorization" (dict_of scope.headers []))

module _ {S : Type 0} (iam : Outside S) (app : Mounted S) where
  -- What follows the answer of validate_api_key.
  unfoldable pub admit : Scope → String → Json → Exec S Response
  unfolding unauthorized
  admit scope token user =
      choose (truthy user) (app (some token) scope) (pure (unauthorized "invalid api key"))

  unfoldable pub check_key : Scope → String → Exec S Response
  unfolding admit unauthorized
  check_key scope token =
      choose ((token == "") || not (is_api_key token))
        (pure (unauthorized "missing or invalid omni_sk_ API key"))
        (validate_api_key iam token >>= admit scope token)

  -- MCPBearerAuthASGIMiddleware.__call__, where `key` is the value of `_current_api_key` before it.
  unfoldable pub call : Option String → Scope → Exec S Response
  unfolding check_key scope_token
  call key scope =
      choose (scope.kind == "http")
        (check_key (record scope { root_path = "/mcp" }) (scope_token scope)) (app key scope)
