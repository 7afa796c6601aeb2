-- ===== src/V1/Billable/Handle.antt =====
-- `_handle_billable_literature_call` of app/routes/v1.py from its entry to its `try` block, and the two
-- routes that it serves.
pub mod Lifecycle
pub mod Balanced
pub mod FailsOpen
pub mod Unlimited
pub mod Retry
pub mod Replays
pub mod Frame
pub mod Remembered
pub mod Conserved
pub mod Routes
pub mod TestMode
pub mod Examples
mod StoreExamples
use Prim.Native.Char.{code}
use omnibioai_api_gateway.Prelude.{
  ℕ, ◌+◌, String, Bool, true, false, ◌&&◌, Option, none, some, List, [], ◌∷◌, ◌==◌, if◌then◌else◌,
  ltb, leb, eqb,
}
use omnibioai_api_gateway.Prelude.Int.{ℤ, pos}
use omnibioai_api_gateway.Json.{
  Json, Fields, null, int, str, obj, field, end, get, ◌or◌, assign, fields_of,
}
use omnibioai_api_gateway.Exec.{Exec, pure, or_raise, ◌>>=◌, ◌>>◌}
use omnibioai_api_gateway.Text.{◌^^◌}
use omnibioai_api_gateway.Http.{Request, State}
use omnibioai_api_gateway.Upstream.{Call, build_upstream_headers, with_query, text_or_empty}
use omnibioai_api_gateway.RequestState.{or_null}
use omnibioai_api_gateway.Router.{resolve_service}
use omnibioai_api_gateway.V1Store.{
  Begun, new, in_progress, mismatch, replay, is_success, reserve_quota, release_quota,
  idempotency_begin, idempotency_finish,
}
use omnibioai_api_gateway.Contract.{
  Built, query, unsupported, crashed, build_rag_query, build_rag_search_query, build_public_answer,
  build_public_search, build_test_answer, build_test_search,
}
use omnibioai_api_gateway.V1.{
  World, Outside, UsageEvent, RateHeaders, Answer, error_answer, success_answer, Caller, caller_of,
  is_test_mode, upstream_error, on_store, call_service, rate_limited, acquire_concurrency_slots,
  release_concurrency_slots,
}
use omnibioai_api_gateway.V1.Usage.{emit_usage}
use omnibioai_api_gateway.V1.Billable.{
  Action, Context, Endpoint, finally, header_of, is_idempotency_key, run_either, settle,
}

module _ {S : Type 0} (o : Outside S) where
  pub when_acquired : Endpoint → Request → State → Context → Fields → Bool → Action o Answer
  when_acquired ep req st ctx rag_body true =
      finally o (run_either o ep req st ctx rag_body)
        (on_store o (release_concurrency_slots o ctx.caller))
  when_acquired ep req st ctx rag_body false = do
    settle o ctx 429 null
    pure (error_answer 429 "concurrency_limit_exceeded" ctx.request_id (some ctx.limits) none)

  -- acquire_concurrency, with its limit: a test key never needs a slot.
  pub slot_limit : Endpoint → Context → Option ℤ
  slot_limit ep ctx = if ctx.test_mode then none else ep.max_concurrent_answers

  -- The concurrency slots around the `try`, by the limit that there is.
  pub with_limit : Endpoint → Request → State → Context → Fields → Option ℤ → Action o Answer
  with_limit ep req st ctx rag_body none = run_either o ep req st ctx rag_body
  with_limit ep req st ctx rag_body (some limit) = do
    acquired ← on_store o (acquire_concurrency_slots o ctx.caller limit)
    when_acquired ep req st ctx rag_body acquired

  pub with_slots : Endpoint → Request → State → Context → Fields → Action o Answer
  with_slots ep req st ctx rag_body = with_limit ep req st ctx rag_body (slot_limit ep ctx)

  -- `_reveal_provider_key`: the key, or the status and response of the failure
  pub data Revealed : Type 0 where
    key_of : Json → Revealed
    refused : ℕ → Json → Revealed

  abbrev reveal_call : String → String → Call
  reveal_call org_id provider = record {
    url =
        text_or_empty (resolve_service "auth")
        ^^ "/internal/organizations/"
        ^^ org_id
        ^^ "/provider-keys/"
        ^^ provider
        ^^ "/reveal";
    method = "POST";
    headers = ("X-Provider-Key-Reveal-Secret", o.reveal_secret) ∷ [];
    body = none;
  }

  -- A successful response that is no object raises.
  revealed_by : ℕ × Json → Action o Revealed
  revealed_by (status, response) =
      if eqb status 200
      then (do fs ← or_raise (fields_of response); pure (key_of (get "api_key" fs)))
      else pure (refused status response)

  pub reveal_provider_key : String → String → Action o Revealed
  unfolding resolve_service
  reveal_provider_key org_id provider =
      if o.reveal_secret == ""
      then pure (refused 503 null)
      else (do answer ← call_service o (reveal_call org_id provider); revealed_by answer)

  abbrev pub reveal_error : Context → ℕ → Json → Answer
  reveal_error ctx status response =
      if eqb status 404
      then error_answer 400 "provider_key_not_configured" ctx.request_id (some ctx.limits) none
      else if eqb status 503
      then error_answer 503 "provider_key_reveal_unavailable" ctx.request_id (some ctx.limits) none
      else error_answer 502 "upstream_error" ctx.request_id (some ctx.limits)
          (if ltb status 500 then some response else none)

  pub byok_model : Context → Fields → Option String
  byok_model ctx rag_body =
      if ctx.test_mode
      then none
      else (elim (get "model" rag_body) [ str m ↦ if m == "" then none else some m | _ ↦ none ])

  pub when_revealed : Endpoint → Request → State → Context → Fields → Revealed → Action o Answer
  when_revealed ep req st ctx rag_body (key_of key) =
      with_slots ep req st ctx (assign "provider_api_key" key rag_body)
  when_revealed ep req st ctx rag_body (refused status response) = do
    settle o ctx 400 null
    pure (reveal_error ctx status response)

  -- By the model that wants an own key, if it does.
  pub with_model_key :
      Endpoint → Request → State → Context → Fields → Option String → Action o Answer
  with_model_key ep req st ctx rag_body none = with_slots ep req st ctx rag_body
  with_model_key ep req st ctx rag_body (some model) = do
    revealed ← reveal_provider_key ctx.caller.org_id model
    when_revealed ep req st ctx rag_body revealed

  pub with_provider_key : Endpoint → Request → State → Context → Fields → Action o Answer
  with_provider_key ep req st ctx rag_body =
      with_model_key ep req st ctx rag_body (byok_model ctx rag_body)

  abbrev pub replayed_answer : Context → ℕ → Json → Answer
  replayed_answer ctx status body = record (success_answer status body ctx.request_id ctx.limits) {
    replayed = true;
  }

  pub when_begun : Endpoint → Request → State → Context → Fields → Begun → Action o Answer
  when_begun ep req st ctx rag_body new = with_provider_key ep req st ctx rag_body
  when_begun ep req st ctx rag_body (replay status body) = pure (replayed_answer ctx status body)
  when_begun ep req st ctx rag_body mismatch =
      pure (error_answer 422 "idempotency_key_reused" ctx.request_id (some ctx.limits) none)
  when_begun ep req st ctx rag_body in_progress =
      pure (error_answer 409 "idempotency_in_progress" ctx.request_id (some ctx.limits) none)

  pub with_key : Endpoint → Request → State → Context → Fields → Option String → Action o Answer
  unfolding is_idempotency_key
  with_key ep req st ctx rag_body none = with_provider_key ep req st ctx rag_body
  with_key ep req st ctx rag_body (some key) =
      if is_idempotency_key key
      then (do
        claim ← on_store o (
            idempotency_begin o.commands o.sha o.idempotency_ttl ctx.caller.subject key
              ctx.fingerprint)
        when_begun ep req st ctx rag_body claim)
      else pure (error_answer 400 "invalid_request" ctx.request_id (some ctx.limits) none)

  pub with_claim : Endpoint → Request → State → Context → Fields → Action o Answer
  with_claim ep req st ctx rag_body = with_key ep req st ctx rag_body ctx.idempotency_key

  abbrev pub domain_of : Json → Json
  domain_of (obj fs) = get "domain" fs
  domain_of _ = null

  abbrev pub context_of : Request → State → Json → RateHeaders → Context
  context_of req st body limits = record {
    caller = caller_of st.identity;
    test_mode = is_test_mode st.identity;
    request_id = st.trace_id;
    domain = domain_of body;
    fingerprint = o.fingerprint body;
    idempotency_key = header_of "idempotency-key" req.headers;
    limits = limits;
    client_id = elim st.identity [ none ↦ null | some i ↦ or_null i.client_id ];
    token_type = elim st.identity [ none ↦ null | some i ↦ str i.token_type ];
  }

  pub when_limited :
      Endpoint → Request → State → Json → Fields → RateHeaders × Option Answer → Action o Answer
  unfolding header_of caller_of is_test_mode
  when_limited ep req st body rag_body (limits, some answer) = pure answer
  when_limited ep req st body rag_body (limits, none) =
      with_claim ep req st (context_of req st body limits) rag_body

  pub with_limits : Endpoint → Request → State → Json → Fields → Action o Answer
  unfolding caller_of
  with_limits ep req st body rag_body = do
    limited ← on_store o (rate_limited o (caller_of st.identity) st.trace_id)
    when_limited ep req st body rag_body limited

  -- What is answered before any limit is looked at.
  abbrev refuse : State → ℕ → String → Option Json → Answer
  refuse st status error_type detail = error_answer status error_type st.trace_id none detail

  pub when_built : Endpoint → Request → State → Json → Built → Action o Answer
  when_built ep req st body crashed = or_raise none
  when_built ep req st body (unsupported name) =
      pure (refuse st 400 "unsupported_request" (some (obj (field "field" (str name) end))))
  when_built ep req st body (query rag_body) = with_limits ep req st body rag_body

  pub when_read : Endpoint → Request → State → Option Json → Action o Answer
  when_read ep req st none = pure (refuse st 400 "invalid_request" none)
  when_read ep req st (some body) = when_built ep req st body (ep.build_rag_body body)

  pub handle_billable_literature_call : Endpoint → Request → State → Action o Answer
  unfolding caller_of
  handle_billable_literature_call ep req st =
      if (caller_of st.identity).org_id == ""
      then pure (refuse st 403 "organization_required" none)
      else when_read ep req st req.body

  abbrev pub answers : ℤ → Endpoint
  answers max_concurrent = record {
    resource = "literature.answer";
    build_rag_body = build_rag_query;
    build_public_response = build_public_answer o.uuid;
    build_test_response = build_test_answer o.uuid;
    max_concurrent_answers = some max_concurrent;
  }

  abbrev pub search_of : Endpoint
  search_of = record {
    resource = "literature.search";
    build_rag_body = build_rag_search_query;
    build_public_response = build_public_search o.uuid;
    build_test_response = build_test_search o.uuid;
    max_concurrent_answers = none;
  }
