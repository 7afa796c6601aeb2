-- ===== src/Middleware/Examples.antt =====
-- The chain of middlewares on concrete requests.
use omnibioai_api_gateway.Dict.{lookup, insert}
use omnibioai_api_gateway.Middleware.Audited.{Closes, gateway_chain-Closes}
use omnibioai_api_gateway.Http.{Response}
use omnibioai_api_gateway.Middleware.{
  trace_middleware, auth_middleware, policy_middleware, hpc_middleware, audit_middleware,
}
use omnibioai_api_gateway.Prelude.{Option}
use omnibioai_api_gateway.Json.{Json, null, int, float, str, arr, truthy}
use omnibioai_api_gateway.Iam.Validate.{validate}
use omnibioai_api_gateway.Iam.Examples.{out, nothing}
use omnibioai_api_gateway.Middleware.Trusted.{IsIdentified, service_needs_identity}
use omnibioai_api_gateway.Prelude.{
  ◌≡◌, refl, ◌⊎◌, inl, inr, true, none, some, [], ◌∷◌, ◌==◌, if◌then◌else◌,
}
use omnibioai_api_gateway.Json.{bool, obj, field, end}
use omnibioai_api_gateway.Http.{Request, User, State, App, replied}
use omnibioai_api_gateway.Clients.{is_compute_service}
use omnibioai_api_gateway.Router.{resolve_service}
use omnibioai_api_gateway.Router.Exemptions.{route_service}
use omnibioai_api_gateway.Middleware.{
  Services, trace_of, authenticate, policy_decision, gateway_chain,
}
use omnibioai_api_gateway.RequestState.{
  hpc_service, bearer_token, session_state, verdict_of, fresh_state, with_trace,
}
use omnibioai_api_gateway.Middleware.Guards.{
  IsRefusal, IsAdmitted, nowhere, chain_guards, service_needs_checks,
}

abbrev ada : User
ada = record {
  user_id = "u1";
  email = "ada@example.org";
  roles = "researcher" ∷ [];
  permissions = "dataset.read" ∷ [];
  org_id = some "org1";
}

-- One valid token, and engines that allow everything.
abbrev services : Services
services = record {
  validate = λ t. if t == "good" then some ada else none;
  validate_api_key = λ t. none;
  post_policy = λ n q. replied (obj (field "allowed" (bool true) end));
  post_hpc = λ n q. replied (obj (field "allow" (bool true) end));
  uuid = "t-1";
  latency_ms = 3;
}

abbrev request : Request
request = record {
  method = "POST";
  path = "/rag/v1/query";
  url = "http://gateway/rag/v1/query";
  authorization = some "Bearer good";
  trace_header = none;
  headers = [];
  query = "";
  body = none;
}

chain_guards_example :
    (IsRefusal (gateway_chain services nowhere request).0
      × ((next : App)
          → (gateway_chain services next request).0 ≡ (gateway_chain services nowhere request).0))
    ⊎ ((st : State) × IsAdmitted services request
          (record fresh_state { trace_id = trace_of services request })
          st
        × ((next : App)
            → (gateway_chain services next request).0
              ≡ with_trace (trace_of services request) (next request st).0))
chain_guards_example = chain_guards services request

abbrev admitted_state : State
admitted_state = session_state fresh_state "good" ada

admitted : IsAdmitted services request fresh_state admitted_state
admitted = record {
  authenticated = inr (unfold authenticate bearer_token in (refl, refl));
  permitted = inr (ada, unfold session_state in refl, unfold policy_decision in refl);
  within_quota = inr (inl (unfold hpc_service is_compute_service in refl));
}

service_needs_checks_example :
    (authenticate services fresh_state (bearer_token (some "Bearer good")) ≡ some admitted_state)
    × ((request.path ≡ "/auth/verify")
        ⊎ ((u : User) × (admitted_state.user ≡ some u)
            × (verdict_of "allowed" (policy_decision services request admitted_state u)
                ≡ some true)))
service_needs_checks_example =
    service_needs_checks services request fresh_state admitted_state admitted
      (unfold resolve_service route_service in refl)

-- The identity of a dict, whatever stands in it.
abbrev user_when : Option Json → Option User
user_when (some (obj (field k v fs))) = some ada
user_when _ = none

user_when-known :
    (r : Option Json) (u : User)
    → user_when r ≡ some u
    → (j : Json) × (r ≡ some j) × (truthy j ≡ true)
user_when-known (some (obj (field k v fs))) u h = (obj (field k v fs), refl, refl)
user_when-known none u h = cc h
user_when-known (some null) u h = cc h
user_when-known (some (bool b)) u h = cc h
user_when-known (some (int z)) u h = cc h
user_when-known (some (float x)) u h = cc h
user_when-known (some (str t)) u h = cc h
user_when-known (some (arr l)) u h = cc h
user_when-known (some (obj end)) u h = cc h

abbrev on_iam : Services
on_iam = record services { validate = λ t. user_when (validate out t nothing).0 }

abbrev signed_request : Request
signed_request = record request { authorization = some "Bearer t1" }

abbrev signed_state : State
signed_state = session_state fresh_state "t1" ada

signed-IsAdmitted : IsAdmitted on_iam signed_request fresh_state signed_state
unfolding lookup
signed-IsAdmitted = record {
  authenticated = inr (unfold authenticate bearer_token validate in (refl, refl));
  permitted = inr (ada, unfold session_state in refl, unfold policy_decision in refl);
  within_quota = inr (inl (unfold hpc_service is_compute_service in refl));
}

service_needs_identity_example : IsIdentified out nothing (bearer_token (some "Bearer t1"))
service_needs_identity_example =
    service_needs_identity out nothing on_iam signed_request fresh_state signed_state
      (record {
        token = λ t u h. user_when-known (validate out t nothing).0 u h;
        api_key = λ t u h. cc h;
      })
      signed-IsAdmitted (unfold resolve_service route_service in refl)

-- A route that answers, and what it answers with.
abbrev route : App
route req st = (some (record { status = 200; body = null; headers = [] }), [])

abbrev answered : Response
answered = record { status = 200; body = null; headers = ("X-Trace-Id", "t-1") ∷ [] }

gateway_chain-Closes_example :
    Closes (trace_of services request) answered (gateway_chain services route request).1
    × (lookup "X-Trace-Id" answered.headers ≡ some (trace_of services request))
gateway_chain-Closes_example = gateway_chain-Closes services request route answered (
    unfold gateway_chain trace_middleware auth_middleware policy_middleware hpc_middleware
      audit_middleware trace_of authenticate bearer_token session_state policy_decision hpc_service
      is_compute_service insert in
    refl)
