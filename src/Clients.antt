-- ===== src/Clients.antt =====
-- PolicyClient.evaluate (app/services/policy_client.py) and HPCPolicyClient
-- (app/services/hpc_policy_client.py): the payloads, and the decisions where no answer comes.
use omnibioai_api_gateway.Prelude.{
  ℕ, String, Bool, false, Option, none, some, List, [], ◌∷◌, ◌==◌, any,
}
use omnibioai_api_gateway.Json.{Json, bool, str, obj, field, end}
use omnibioai_api_gateway.Http.{User, Reply, retry_once}
use omnibioai_api_gateway.Text.{lower, dotted, strip, is_slash, ◌^^◌}

pub record PolicyQuery : Type 0 where
  pub user_id : String
  pub email : String
  pub roles : List String
  pub permissions : List String
  pub org_id : Option String
  pub action : String
  pub resource : String
  pub service : String
  pub method : String
  pub trace_id : String

-- required_permission or "{method}.{path}" with dots
unfoldable pub action_of : Option String → String → String → String
unfolding lower dotted strip
action_of (some permission) method path = permission
action_of none method path = lower method ^^ "." ^^ dotted (strip is_slash path)

abbrev pub denied_because : String → String → Json
denied_because verdict reason = obj (field verdict (bool false) (field "reason" (str reason) end))

unfoldable pub policy_query : User → String → String → String → Option String → String → PolicyQuery
unfolding action_of
policy_query user path method trace_id required_permission service = record {
  user_id = user.user_id;
  email = user.email;
  roles = user.roles;
  permissions = user.permissions;
  org_id = user.org_id;
  action = action_of required_permission method path;
  resource = path;
  service = service;
  method = method;
  trace_id = trace_id;
}

-- `post attempt query` is the outcome of the call to the policy engine.
unfoldable pub policy_evaluate : (ℕ → PolicyQuery → Reply) → PolicyQuery → Json
unfolding retry_once
policy_evaluate post query =
    retry_once (denied_because "allowed" "policy_timeout") (denied_because "allowed" "policy_error")
      (λ attempt. post attempt query)

pub record HpcQuery : Type 0 where
  pub user_id : String
  pub cpu_hours : ℕ
  pub gpu_hours : ℕ
  pub gpus : ℕ
  pub memory_gb : ℕ
  pub partition : String
  pub roles : List String
  pub trace_id : String

unfoldable pub is_compute_service : String → Bool
is_compute_service service = any (λ s. service == s) ("tes" ∷ "toolserver" ∷ "workbench" ∷ [])

-- The query of HPCMiddleware, which leaves the amounts at their defaults.
unfoldable pub hpc_query : String → String → List String → HpcQuery
hpc_query user_id trace_id roles = record {
  user_id = user_id;
  cpu_hours = 0;
  gpu_hours = 0;
  gpus = 0;
  memory_gb = 0;
  partition = "cpu";
  roles = roles;
  trace_id = trace_id;
}

unfoldable pub hpc_evaluate : (ℕ → HpcQuery → Reply) → HpcQuery → Json
unfolding retry_once
hpc_evaluate post query =
    retry_once (denied_because "allow" "hpc_timeout") (denied_because "allow" "hpc_error")
      (λ attempt. post attempt query)
