-- ===== src/Http.antt =====
-- What the middlewares and routes hand to one another: requests, `request.state`, responses, audit
-- events, and the outcome of a call to another service.
use omnibioai_api_gateway.Prelude.{ℕ, String, Bool, Option, List}
use omnibioai_api_gateway.Json.{Json, Fields}
use omnibioai_api_gateway.Dict.{Dict}

-- A request: `authorization` and `trace_header` are the headers of those names, `body` is what
-- `request.json()` returns, none where it raises.
pub record Request : Type 0 where
  pub method : String
  pub path : String
  pub url : String
  pub authorization : Option String
  pub trace_header : Option String
  pub headers : List (String × String)
  pub query : String
  pub body : Option Json

-- The dict that IAMClient.validate returns, and validate_api_key too.
pub record User : Type 0 where
  pub user_id : String
  pub email : String
  pub roles : List String
  pub permissions : List String
  pub org_id : Option String

-- What validate_api_key adds.
pub record ApiKey : Type 0 where
  pub api_key_id : String
  pub access_token : String
  pub test_mode : Bool

pub record Identity : Type 0 where
  pub user_id : String
  pub organization_id : Option String
  pub client_id : Option String
  pub permissions : List String
  pub token_type : String
  pub test_mode : Bool

-- `request.state`
pub record State : Type 0 where
  pub trace_id : String
  pub user : Option User
  pub token : Option String
  pub identity : Option Identity

pub record Response : Type 0 where
  pub status : ℕ
  pub body : Json
  pub headers : Dict String

-- `build_audit_event` of app/services/audit_client.py, without its fresh `event_id` and `timestamp`
-- and its constant `service`.
pub record AuditEvent : Type 0 where
  pub event_type : String
  pub action : String
  pub user_id : Option String
  pub organization_id : Option String
  pub tenant_scope : String
  pub resource : Option String
  pub decision : Option String
  pub reason : Json
  pub trace_id : String
  pub context : Fields

-- A handler: the response, or an exception that leaves it, and the audit events fired.
abbrev pub App : Type 0
App = Request → State → Option Response × List AuditEvent

-- The outcome of one HTTP call: a time-out, another exception, or the JSON of the response.
pub data Reply : Type 0 where
  timeout failed : Reply
  replied : Json → Reply

-- The loop `for attempt in range(2)` of PolicyClient and HPCPolicyClient, over the outcome of each attempt.
unfoldable pub retry_once : Json → Json → (ℕ → Reply) → Json
retry_once on_timeout on_error post = elim (post 0) [
  | replied j ↦ j
  | failed ↦ on_error
  | timeout ↦ elim (post 1) [ replied j ↦ j | failed ↦ on_error | timeout ↦ on_timeout ]
]
