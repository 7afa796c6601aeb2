-- ===== src/V1/Billable.antt =====
-- `_handle_billable_literature_call` of app/routes/v1.py, and the two routes that it serves.
pub mod Billing
pub mod TryBlock
pub mod Balanced
pub mod FailsOpen
pub mod Unlimited
pub mod Remembered
pub mod Frame
pub mod Handle
use Prim.Native.Char.{code}
use omnibioai_api_gateway.Prelude.{
  ℕ, ◌+◌, String, Bool, true, false, ◌&&◌, Option, none, some, List, [], ◌∷◌, ◌==◌, if◌then◌else◌,
  ltb, leb, eqb,
}
use omnibioai_api_gateway.Prelude.Int.{ℤ, pos}
use omnibioai_api_gateway.Json.{
  Json, Fields, null, bool, int, str, obj, field, end, get, ◌or◌, assign, fields_of,
}
use omnibioai_api_gateway.Exec.{Exec, pure, or_raise, ◌>>=◌, ◌>>◌}
use omnibioai_api_gateway.Text.{◌^^◌}
use omnibioai_api_gateway.Http.{Request, State}
use omnibioai_api_gateway.Upstream.{Call, build_upstream_headers, with_query, text_or_empty}
use omnibioai_api_gateway.Router.{resolve_service}
use omnibioai_api_gateway.V1Store.{
  Begun, new, in_progress, mismatch, replay, is_success, reserve_quota, release_quota,
  idempotency_begin, idempotency_finish,
}
use omnibioai_api_gateway.Contract.{
  Built, query, unsupported, crashed, build_rag_query, build_rag_search_query, build_public_answer,
  build_public_search, build_test_answer, build_test_search,
}
use omnibioai_api_gateway.V1.{
  World, Outside, UsageEvent, RateHeaders, Answer, error_answer, success_answer, Caller, caller_of,
  is_test_mode, upstream_error, on_store, call_service, rate_limited, acquire_concurrency_slots,
  release_concurrency_slots,
}
use omnibioai_api_gateway.V1.Usage.{emit_usage}

-- What the two billable routes differ in.
pub record Endpoint : Type 0 where
  pub resource : String
  pub build_rag_body : Json → Built
  pub build_public_response : Fields → Json → String → ℕ → Option Fields
  pub build_test_response : Json → String → ℕ → Fields
  pub max_concurrent_answers : Option ℤ

abbrev pub token_input_resource : String
token_input_resource = "llm.tokens.input"

abbrev pub token_output_resource : String
token_output_resource = "llm.tokens.output"

-- What is known of a call once its rate limits have let it through.
pub record Context : Type 0 where
  pub caller : Caller
  pub test_mode : Bool
  pub request_id : String
  pub domain : Json
  pub fingerprint : String
  pub idempotency_key : Option String
  pub limits : RateHeaders
  pub client_id : Json
  pub token_type : Json

-- ^[\x21-\x7e]{1,255}$, with `n` characters read; `$` also matches before a last newline
key_from : ℕ → String → Bool
key_from n String.[] = leb 1 n && leb n 255
key_from n (String.◌∷◌ c s) =
    let rest = key_from (n + 1) s in
    if eqb (code c) 10
    then (s == "" && leb 1 n && leb n 255)
    else leb 0x21 (code c) && leb (code c) 0x7e && rest

unfoldable pub is_idempotency_key : String → Bool
unfolding key_from
is_idempotency_key s = key_from 0 s

-- request.headers.get("Idempotency-Key")
unfoldable pub header_of : String → List (String × String) → Option String
header_of name [] = none
header_of name ((k, v) ∷ hs) = if k == name then some v else header_of name hs

module _ {S : Type 0} (o : Outside S) where
  abbrev pub Action : Type 0 → Type 0
  Action A = Exec (World S) A

  -- The claim of the call's Idempotency-Key, if it has one, is finished with this result.
  pub settle : Context → ℕ → Json → Action (Unit {0})
  settle ctx status body = elim ctx.idempotency_key [
    | none ↦ pure tt
    | some key ↦ on_store o (
        idempotency_finish o.commands o.sha o.idempotency_ttl ctx.caller.subject key ctx.fingerprint
          status body)
  ]

  abbrev pub dedup_key : Context → String
  dedup_key ctx = elim ctx.idempotency_key [
    | none ↦ ctx.request_id
    | some key ↦ ctx.caller.subject ^^ ":" ^^ key
  ]

  -- `metadata`, with what `emit_usage` adds, of the event for the unit and of one for tokens
  abbrev pub unit_metadata : Context → Json
  unit_metadata ctx = obj (
      field "request_id" (str ctx.request_id) (
        field "client_id" ctx.client_id (
          field "token_type" ctx.token_type (
            field "idempotency_key_sha256"
              (elim ctx.idempotency_key [ none ↦ null | some key ↦ str (o.fingerprint (str key)) ])
              (field "billable" (bool true) end)))))

  abbrev pub token_metadata : Context → Json → Json
  token_metadata ctx model = obj (
      field "request_id" (str ctx.request_id)
        (field "model" model (field "billable" (bool true) end)))

  abbrev pub usage_event : Context → String → String → Json → String → Json → UsageEvent
  usage_event ctx resource key quantity unit metadata = record {
    event_id = o.event_id_of key;
    organization_id = ctx.caller.org_id;
    resource = resource;
    quantity = quantity;
    unit = unit;
    user_id = ctx.caller.user_id;
    trace_id = ctx.request_id;
    metadata = metadata;
  }

  abbrev pub is_null : Json → Bool
  is_null null = true
  is_null _ = false

  -- One of the two token events, where the count is there.
  pub emit_tokens : Context → String → String → Json → Json → Action (Unit {0})
  emit_tokens ctx resource suffix quantity model =
      if is_null quantity
      then pure tt
      else (emit_usage o (
            usage_event ctx resource (dedup_key ctx ^^ suffix) quantity "tokens"
              (token_metadata ctx model))
          >> pure tt)

  -- public_response.get("usage") or {}
  abbrev token_usage : Fields → Option Fields
  token_usage response = fields_of (get "usage" response or obj end)

  pub emit_all : Endpoint → Context → Fields → Action (Unit {0})
  unfolding emit_tokens
  emit_all ep ctx response = do
    emit_usage o
        (usage_event ctx ep.resource (dedup_key ctx) (int (pos 1)) "requests" (unit_metadata ctx))
    usage ← or_raise (token_usage response)
    emit_tokens ctx token_input_resource ":tokens:input" (get "input_tokens" usage)
        (get "model_source" response)
    emit_tokens ctx token_output_resource ":tokens:output" (get "output_tokens" usage)
        (get "model_source" response)

  -- `_forward_to`, for a service that is there
  unfoldable pub forward_to :
      Request → State → String → String → String → Option Json → Action (ℕ × Json)
  unfolding resolve_service
  forward_to req st service method path body = call_service o (record {
    url = with_query (text_or_empty (resolve_service service) ^^ "/" ^^ path) req.query;
    method = method;
    headers = build_upstream_headers req.headers st;
    body = body;
  })

  -- After an upstream success: translate, store for replay, bill, and answer, which JSONResponse may yet refuse.
  pub deliver : Endpoint → Context → ℕ → Json → Action Answer
  deliver ep ctx status response = do
    result ← or_raise (fields_of response)
    public ← or_raise (ep.build_public_response result ctx.domain ctx.request_id o.latency_ms)
    settle ctx status (obj public)
    emit_all ep ctx public
    pure (success_answer status (obj public) ctx.request_id ctx.limits)

  -- After an upstream failure: give the reserved unit back.
  pub give_up : Endpoint → Context → ℕ → Json → Action Answer
  give_up ep ctx status response = do
    on_store o (release_quota o.commands ctx.caller.org_id ep.resource)
    settle ctx status response
    pure (upstream_error status response ctx.request_id ctx.limits)

  -- What comes of the literature service's status and response.
  pub conclude : Endpoint → Context → ℕ × Json → Action Answer
  conclude ep ctx (status, response) =
      if is_success status then deliver ep ctx status response else give_up ep ctx status response

  pub when_reserved : Endpoint → Request → State → Context → Fields → Bool → Action Answer
  when_reserved ep req st ctx rag_body true = do
    answer ← forward_to req st "rag" "POST" "v1/query" (some (obj rag_body))
    conclude ep ctx answer
  when_reserved ep req st ctx rag_body false = do
    settle ctx 402 null
    pure (error_answer 402 "quota_exceeded" ctx.request_id (some ctx.limits) none)

  -- The `try` block of a call that is no test.
  pub run_call : Endpoint → Request → State → Context → Fields → Action Answer
  run_call ep req st ctx rag_body = do
    reserved ← on_store o (reserve_quota o.commands ctx.caller.org_id ep.resource)
    when_reserved ep req st ctx rag_body reserved

  -- The `try` block of a call with a test key.
  pub run_test : Endpoint → Context → Action Answer
  run_test ep ctx = do
    let response = obj (ep.build_test_response ctx.domain ctx.request_id 0)
    settle ctx 200 response
    pure (success_answer 200 response ctx.request_id ctx.limits)

  pub run_either : Endpoint → Request → State → Context → Fields → Action Answer
  run_either ep req st ctx rag_body =
      if ctx.test_mode then run_test ep ctx else run_call ep req st ctx rag_body

  -- try: m  finally: f, where `f` does not raise
  pub finally : Action Answer → Action (Unit {0}) → Action Answer
  finally m f w = let (r, w') = m w in let (_, w'') = f w' in (r, w'')
