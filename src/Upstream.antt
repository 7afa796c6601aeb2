-- ===== src/Upstream.antt =====
-- app/routes/gateway.py and app/core/proxy.py: the headers of a forwarded request, and the
-- catch-all route.
pub mod Headers
mod Examples
use omnibioai_api_gateway.Prelude.{
  ◌⊎◌, inl, inr, ℕ, String, Bool, true, false, Option, none, some, List, [], ◌∷◌, ◌++◌, ◌==◌,
  if◌then◌else◌, any, ltb,
}
use omnibioai_api_gateway.Prelude.Int.{pos}
use omnibioai_api_gateway.Json.{Json, str, int, null, obj, field, end}
use omnibioai_api_gateway.Dict.{Dict, insert}
use omnibioai_api_gateway.Text.{lower, ◌^^◌}
use omnibioai_api_gateway.Router.{resolve_service}
use omnibioai_api_gateway.Http.{Request, User, Identity, State, Response, AuditEvent, App}
use omnibioai_api_gateway.RequestState.{organization_of, scope_of, user_id_of}

abbrev pub reserved_upstream_headers : List String
reserved_upstream_headers =
    "host" ∷ "content-length" ∷ "authorization" ∷ "x-internal-service" ∷ "x-trace-id" ∷ "x-user-id"
    ∷ "x-organization-id" ∷ "x-client-id" ∷ "x-permissions" ∷ "x-token-type" ∷ []

-- k.lower() in _RESERVED_UPSTREAM_HEADERS
unfoldable pub is_reserved : String → Bool
unfolding lower
is_reserved k = any (λ r. lower k == r) reserved_upstream_headers

-- {k: v for k, v in request.headers.items() if …}
client_headers : List (String × String) → Dict String → Dict String
client_headers [] d = d
client_headers ((k, v) ∷ hs) d = client_headers hs (if is_reserved k then d else insert k v d)

abbrev pub text_or_empty : Option String → String
text_or_empty none = ""
text_or_empty (some s) = s

abbrev client_id_of : Option Identity → String
client_id_of none = ""
client_id_of (some i) = text_or_empty i.client_id

-- ",".join(permissions)
abbrev joined : List String → String
joined [] = ""
joined (p ∷ []) = p
joined (p ∷ q ∷ ps) = p ^^ "," ^^ joined (q ∷ ps)

abbrev permissions_of : Option Identity → String
permissions_of none = ""
permissions_of (some i) = joined i.permissions

abbrev token_type_of : Option Identity → String
token_type_of none = ""
token_type_of (some i) = i.token_type

-- if token:
abbrev set_authorization : Option String → Dict String → Dict String
set_authorization none d = d
set_authorization (some t) d = if t == "" then d else insert "Authorization" ("Bearer " ^^ t) d

-- The headers that the gateway sets itself, written over those that are there.
pub set_identity : State → Dict String → Dict String
set_identity st d = set_authorization st.token (
    insert "X-Token-Type" (token_type_of st.identity) (
      insert "X-Permissions" (permissions_of st.identity) (
        insert "X-Client-ID" (client_id_of st.identity) (
          insert "X-Organization-ID" (text_or_empty (organization_of st.identity)) (
            insert "X-User-Id" (user_id_of st.user)
              (insert "X-Trace-Id" st.trace_id (insert "X-Internal-Service" "gateway" d)))))))

pub build_upstream_headers : List (String × String) → State → Dict String
unfolding client_headers set_identity
build_upstream_headers headers st = set_identity st (client_headers headers [])

-- One call of `proxy.forward`.
pub record Call : Type 0 where
  pub url : String
  pub method : String
  pub headers : Dict String
  pub body : Option Json

-- `forward`: a client that raises gives status 500. `send` is the outcome of the client's request: the text of
-- an exception, or the status and the JSON of the response.
unfoldable pub forward : (Call → String ⊎ (ℕ × Json)) → Call → ℕ × Json
forward send call = elim (send call) [
  | inl detail ↦
      (500, obj (field "error" (str "upstream_failure") (field "detail" (str detail) end)))
  | inr answer ↦ answer
]

unfoldable pub with_query : String → String → String
with_query url query = if query == "" then url else url ^^ "?" ^^ query

forward_event : Request → State → String → String → ℕ → AuditEvent
forward_event req st service path status =
    let org = organization_of st.identity in
    record {
      event_type = "upstream_forward";
      action = req.method ^^ " " ^^ service ^^ "/" ^^ path;
      user_id = some (user_id_of st.user);
      organization_id = org;
      tenant_scope = scope_of org;
      resource = none;
      decision = some (if ltb status 400 then "allow" else "deny");
      reason = null;
      trace_id = st.trace_id;
      context = field "status_code" (int (pos status)) end;
    }

-- The catch-all route, with the two parameters of its path.
pub catch_all : (Call → String ⊎ (ℕ × Json)) → String → String → App
unfolding build_upstream_headers forward with_query forward_event resolve_service
catch_all send service path req st = elim (resolve_service service) [
  | none ↦ (
    some (record {
      status = 200;
      body = obj (field "error" (str "unknown service") end);
      headers = [];
    }),
    [],
  )
  | some target ↦
      let (status, response) = forward send (record {
        url = with_query (target ^^ "/" ^^ path) req.query;
        method = req.method;
        headers = build_upstream_headers req.headers st;
        body = req.body;
      }) in
      (
        some (record { status = status; body = response; headers = [] }),
        forward_event req st service path status ∷ [],
      )
]
