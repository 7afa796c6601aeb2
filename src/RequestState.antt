-- ===== src/RequestState.antt =====
-- app/middleware/*.py: what the middlewares read of a request and write to `request.state`, their
-- refusals and their audit events.
use omnibioai_api_gateway.Prelude.{
  ℕ, String, Bool, true, false, Option, none, some, List, [], ◌∷◌, ◌++◌,
}
use omnibioai_api_gateway.Json.{Json, Fields, null, bool, str, obj, field, end, get_or, truthy}
use omnibioai_api_gateway.Dict.{insert}
use omnibioai_api_gateway.Text.{begins_with, removeprefix, strip, is_space, ◌^^◌}
use omnibioai_api_gateway.Router.{resolve_required_permission, service_for_path, path_parts}
use omnibioai_api_gateway.Http.{Request, User, ApiKey, Identity, State, Response, AuditEvent}
use omnibioai_api_gateway.Clients.{action_of}

abbrev pub scope_of : Option String → String
scope_of none = "unknown"
scope_of (some _) = "organization"

abbrev pub organization_of : Option Identity → Option String
organization_of none = none
organization_of (some i) = i.organization_id

abbrev pub answer_json : ℕ → Fields → Response
answer_json status fs = record { status = status; body = obj fs; headers = [] }

abbrev pub or_null : Option String → Json
or_null none = null
or_null (some s) = str s

abbrev pub action : Request → String
action req = req.method ^^ " " ^^ req.path

abbrev pub fresh_state : State
fresh_state = record { trace_id = ""; user = none; token = none; identity = none }

abbrev pub with_trace : String → Option Response → Option Response
with_trace t none = none
with_trace t (some r) = some (record r { headers = insert "X-Trace-Id" t r.headers })

-- request.headers.get("Authorization", "").removeprefix("Bearer ").strip()
unfoldable pub bearer_token : Option String → String
unfolding removeprefix strip
bearer_token none = ""
bearer_token (some s) = strip is_space (removeprefix s "Bearer ")

unfoldable pub is_api_key : String → Bool
unfolding begins_with
is_api_key token = begins_with token "omni_sk_"

unfoldable pub auth_failed : Request → State → String → AuditEvent
auth_failed req st reason = record {
  event_type = "auth_failed";
  action = action req;
  user_id = none;
  organization_id = none;
  tenant_scope = "unknown";
  resource = none;
  decision = some "deny";
  reason = str reason;
  trace_id = st.trace_id;
  context = end;
}

-- What AuthMiddleware writes to `request.state` for a session and for an API key.
unfoldable pub session_state : State → String → User → State
session_state st token user = record st {
  user = some user;
  token = some token;
  identity = some (record {
    user_id = user.user_id;
    organization_id = user.org_id;
    client_id = none;
    permissions = user.permissions;
    token_type = "user";
    test_mode = false;
  });
}

unfoldable pub api_key_state : State → User → ApiKey → State
api_key_state st user key = record st {
  user = some user;
  token = some key.access_token;
  identity = some (record {
    user_id = user.user_id;
    organization_id = user.org_id;
    client_id = some ("api_key:" ^^ key.api_key_id);
    permissions = user.permissions;
    token_type = "api_key";
    test_mode = key.test_mode;
  });
}

-- `decision.get(verdict, False)`, where a decision that is no object raises
abbrev pub verdict_of : String → Json → Option Bool
verdict_of verdict (obj fs) = some (truthy (get_or verdict (bool false) fs))
verdict_of verdict _ = none

abbrev pub reason_of : Json → Json → Json
reason_of default (obj fs) = get_or "reason" default fs
reason_of default _ = default

unfoldable pub iam_auth_success : Request → State → User → AuditEvent
unfolding service_for_path resolve_required_permission action_of
iam_auth_success req st user =
    let service = service_for_path req.path in
    let org = organization_of st.identity in
    record {
      event_type = "iam_auth_success";
      action = action_of (resolve_required_permission service) req.method req.path;
      user_id = some user.user_id;
      organization_id = org;
      tenant_scope = scope_of org;
      resource = some req.path;
      decision = some "allow";
      reason = null;
      trace_id = st.trace_id;
      context = field "organization_id" (or_null org) (field "service" (str service) end);
    }

unfoldable pub denial : String → Request → State → String → Json → AuditEvent
denial event_type req st user_id reason =
    let org = organization_of st.identity in
    record {
      event_type = event_type;
      action = action req;
      user_id = some user_id;
      organization_id = org;
      tenant_scope = scope_of org;
      resource = none;
      decision = some "deny";
      reason = reason;
      trace_id = st.trace_id;
      context = end;
    }

abbrev pub before :
    List AuditEvent → Option Response × List AuditEvent → Option Response × List AuditEvent
before events (r, later) = (r, events ++ later)

-- The end of PolicyMiddleware and of HPCMiddleware: pass on, refuse or raise.
abbrev pub decide :
    Option Bool
    → Response
    → AuditEvent
    → Option Response × List AuditEvent
    → Option Response × List AuditEvent
decide none refusal event passed = (none, [])
decide (some false) refusal event passed = (some refusal, event ∷ [])
decide (some true) refusal event passed = passed

abbrev pub first_part : List String → String
first_part [] = ""
first_part (p ∷ ps) = p

unfoldable pub hpc_service : Request → String
unfolding path_parts
hpc_service req = first_part (path_parts req.path)

abbrev pub user_id_of : Option User → String
user_id_of none = ""
user_id_of (some u) = u.user_id

abbrev pub roles_of : Option User → List String
roles_of none = []
roles_of (some u) = u.roles
