-- ===== src/V1/Free.antt =====
-- The routes of app/routes/v1.py that are not billed: studies, domains, usage, models and provider keys.
pub mod Calls
mod Examples
use omnibioai_api_gateway.Prelude.{
  ℕ, String, Bool, Option, none, some, ◌==◌, if◌then◌else◌, leb, ltb, eqb,
}
use omnibioai_api_gateway.Json.{
  Json, Items, Fields, null, str, arr, obj, nil, cons, field, end, get, ◌or◌, fields_of,
}
use omnibioai_api_gateway.Exec.{Exec, pure, or_raise, ◌>>=◌}
use omnibioai_api_gateway.Text.{◌^^◌}
use omnibioai_api_gateway.Http.{Request, State}
use omnibioai_api_gateway.V1Store.{is_success}
use omnibioai_api_gateway.V1.{
  World, Outside, RateHeaders, Answer, error_answer, success_answer, Caller, caller_of,
  upstream_error, on_store, rate_limited,
}
use omnibioai_api_gateway.V1.Billable.{forward_to}

-- [f(item) for item in items], where an item that is no object raises
objects_of : (Fields → Json) → Items → Option Items
objects_of f nil = some nil
objects_of f (cons (obj fs) l) = elim (objects_of f l) [
  | none ↦ none
  | some r ↦ some (cons (f fs) r)
]
objects_of f (cons _ l) = none

-- response.get(key) or [], as a list of objects
abbrev listed : String → (Fields → Json) → Fields → Option Items
listed key f response = elim (get key response or arr nil) [ arr l ↦ objects_of f l | _ ↦ none ]

abbrev domain_fields : Fields → Json
domain_fields s =
    obj (field "name" (get "name" s) (field "abstract_count" (get "abstract_count" s) end))

abbrev limit_fields : Fields → Json
limit_fields item = obj (
    field "resource" (get "resource" item) (
      field "unit" (get "unit" item) (
        field "period" (get "period" item) (
          field "included" (get "included" item)
            (field "used" (get "used" item) (field "remaining" (get "remaining" item) end))))))

abbrev model_fields : String → String → Json
model_fields model source = obj (
    field "model" (str model)
      (field "source" (str source) (field "billed_by" (str "query") (field "price" null end))))

abbrev models : Json
models = arr (
    cons (model_fields "default" "omnibioai_gpu")
      (cons (model_fields "claude" "claude") (cons (model_fields "openai" "openai") nil)))

-- What a route makes of a service's status and response; `none` is an exception.
module _ (request_id : String) (limits : RateHeaders) where
  studies_answer : ℕ × Json → Option Answer
  studies_answer (status, response) = some (
      if is_success status
      then success_answer status response request_id limits
      else upstream_error status response request_id limits)

  abbrev domains_body : Json → Option Json
  domains_body (obj fs) = elim (listed "studies" domain_fields fs) [
    | none ↦ none
    | some l ↦ some (obj (field "domains" (arr l) end))
  ]
  domains_body _ = none

  abbrev success_with : ℕ → Option Json → Option Answer
  success_with status none = none
  success_with status (some body) = some (success_answer status body request_id limits)

  domains_answer : ℕ × Json → Option Answer
  unfolding objects_of
  domains_answer (status, response) =
      if is_success status
      then success_with status (domains_body response)
      else some (upstream_error status response request_id limits)

  abbrev usage_body : Json → Option Json
  usage_body (obj fs) = elim (listed "limits" limit_fields fs) [
    | none ↦ none
    | some l ↦ some (
        obj (
          field "plan" (get "plan_name" fs)
            (field "as_of" (get "as_of" fs) (field "usage" (arr l) end))))
  ]
  usage_body _ = none

  usage_answer : ℕ × Json → Option Answer
  unfolding objects_of
  usage_answer (status, response) =
      if eqb status 404
      then some (error_answer 404 "no_active_plan" request_id (some limits) none)
      else if is_success status
      then success_with 200 (usage_body response)
      else some (
          error_answer (if leb 500 status then 502 else status) "upstream_error" request_id
            (some limits) (if ltb status 500 then some response else none))

  -- `_provider_key_error`, and the success
  provider_key_answer : ℕ × Json → Option Answer
  provider_key_answer (status, response) = some (
      if is_success status
      then success_answer status response request_id limits
      else if leb 500 status
      then error_answer 502 "upstream_error" request_id (some limits) none
      else if eqb status 403
      then error_answer 403 "forbidden" request_id (some limits) none
      else if eqb status 404
      then error_answer 404 "not_found" request_id (some limits) none
      else error_answer status "invalid_request" request_id (some limits) (some response))

-- What a route asks a service for, and what it makes of the answer.
pub record Enquiry : Type 0 where
  pub service : String
  pub method : String
  pub path : String
  pub body : Option Json
  pub answer : String → RateHeaders → ℕ × Json → Option Answer

abbrev studies_enquiry : (String → RateHeaders → ℕ × Json → Option Answer) → Enquiry
studies_enquiry answer = record {
  service = "rag";
  method = "GET";
  path = "v1/studies";
  body = none;
  answer = answer;
}

abbrev usage_enquiry : String → Enquiry
usage_enquiry org_id = record {
  service = "billing";
  method = "GET";
  path = "billing/organizations/" ^^ org_id ^^ "/subscription/usage-limits";
  body = none;
  answer = usage_answer;
}

abbrev provider_key_enquiry : String → String → Option Json → Enquiry
provider_key_enquiry method path body = record {
  service = "auth";
  method = method;
  path = path;
  body = body;
  answer = provider_key_answer;
}

module _ {S : Type 0} (o : Outside S) (req : Request) (st : State) where
  abbrev Action : Type 0
  Action = Exec (World S) Answer

  enquire : Enquiry → RateHeaders → Action
  enquire e limits = do
    answer ← forward_to o req st e.service e.method e.path e.body
    or_raise (e.answer st.trace_id limits answer)

  when_allowed : (RateHeaders → Action) → RateHeaders × Option Answer → Action
  when_allowed next (limits, some refusal) = pure refusal
  when_allowed next (limits, none) = next limits

  -- The rate limit that every route starts with.
  after_limits : (RateHeaders → Action) → Action
  after_limits next = do
    limited ← on_store o (rate_limited o (caller_of st.identity) st.trace_id)
    when_allowed next limited

  abbrev org_id : String
  org_id = (caller_of st.identity).org_id

  for_organization : Action → Action
  unfolding caller_of
  for_organization next =
      if org_id == ""
      then pure (error_answer 403 "organization_required" st.trace_id none none)
      else next

  with_body : (Json → Action) → Option Json → Action
  with_body next none = pure (error_answer 400 "invalid_request" st.trace_id none none)
  with_body next (some body) = next body

  pub literature_studies : Action
  unfolding enquire after_limits when_allowed studies_answer
  literature_studies = after_limits (enquire (studies_enquiry studies_answer))

  pub literature_domains : Action
  unfolding enquire after_limits when_allowed domains_answer
  literature_domains = after_limits (enquire (studies_enquiry domains_answer))

  pub literature_usage : Action
  unfolding enquire after_limits when_allowed for_organization usage_answer
  literature_usage = for_organization (after_limits (enquire (usage_enquiry org_id)))

  abbrev models_answer : RateHeaders → Answer
  models_answer limits = success_answer 200 (obj (field "models" models end)) st.trace_id limits

  pub literature_models : Action
  unfolding after_limits when_allowed
  literature_models = after_limits (λ limits. pure (models_answer limits))

  abbrev keys_path : String
  keys_path = "orgs/" ^^ org_id ^^ "/provider-keys"

  abbrev key_path : String → String
  key_path provider = "orgs/" ^^ org_id ^^ "/provider-keys/" ^^ provider

  pub set_provider_key : String → Action
  unfolding enquire after_limits when_allowed for_organization provider_key_answer with_body
  set_provider_key provider = for_organization (
      with_body
        (λ body.
          after_limits (enquire (provider_key_enquiry "PUT" (key_path provider) (some body))))
        req.body)

  pub get_provider_key : Action
  unfolding enquire after_limits when_allowed for_organization provider_key_answer
  get_provider_key =
      for_organization (after_limits (enquire (provider_key_enquiry "GET" keys_path none)))

  pub delete_provider_key : String → Action
  unfolding enquire after_limits when_allowed for_organization provider_key_answer
  delete_provider_key provider =
      for_organization
        (after_limits (enquire (provider_key_enquiry "DELETE" (key_path provider) none)))
