-- ===== src/V1/Billable/Handle/Unlimited.antt =====
-- What `_handle_billable_literature_call` comes to without a store.
use omnibioai_api_gateway.Prelude.{ℕ, String, Option, none, some, ◌==◌}
use omnibioai_api_gateway.Json.{Json, Fields, assign}
use omnibioai_api_gateway.Http.{Request, State}
use omnibioai_api_gateway.V1.{Outside, Answer, RateHeaders, caller_of}
use omnibioai_api_gateway.Contract.{Built, query, unsupported, crashed}
use omnibioai_api_gateway.V1.Billable.Unlimited.{serve}
use omnibioai_api_gateway.V1.{error_answer}
use omnibioai_api_gateway.Json.{obj, field, str, end}
use omnibioai_api_gateway.Exec.{pure, or_raise, ◌>>=◌}
use omnibioai_api_gateway.Prelude.{if◌then◌else◌}
use omnibioai_api_gateway.V1.Billable.{Action, Endpoint, Context, is_idempotency_key}
use omnibioai_api_gateway.V1.Billable.Handle.{
  Revealed, key_of, refused, reveal_provider_key, reveal_error, byok_model, context_of,
}

-- Without a store: the rate limit is what is configured, all of it is left, no slot, unit or claim is
-- looked for, and the other steps are those of the handler.
module _ {S : Type 0} (o : Outside S) (ep : Endpoint) (req : Request) (st : State) where
  unfoldable pub serve_revealed : Context → Fields → Revealed o → Action o Answer
  serve_revealed ctx rag_body (key_of key) =
      serve o ep req st ctx (assign "provider_api_key" key rag_body)
  serve_revealed ctx rag_body (refused status response) = pure (reveal_error o ctx status response)

  unfoldable pub serve_model : Context → Fields → Option String → Action o Answer
  unfolding serve_revealed
  serve_model ctx rag_body none = serve o ep req st ctx rag_body
  serve_model ctx rag_body (some model) = do
    revealed ← reveal_provider_key o ctx.caller.org_id model
    serve_revealed ctx rag_body revealed

  unfoldable pub serve_key : Context → Fields → Option String → Action o Answer
  unfolding serve_model
  serve_key ctx rag_body none = serve_model ctx rag_body (byok_model o ctx rag_body)
  serve_key ctx rag_body (some key) =
      if is_idempotency_key key
      then serve_model ctx rag_body (byok_model o ctx rag_body)
      else pure (error_answer 400 "invalid_request" ctx.request_id (some ctx.limits) none)

  unfoldable pub refuse_with : ℕ → String → Option Json → Answer
  refuse_with status error_type detail = error_answer status error_type st.trace_id none detail

  unfoldable pub serve_built : RateHeaders → Json → Built → Action o Answer
  unfolding serve_key refuse_with
  serve_built limits body crashed = or_raise none
  serve_built limits body (unsupported name) =
      pure (refuse_with 400 "unsupported_request" (some (obj (field "field" (str name) end))))
  serve_built limits body (query rag_body) =
      let ctx = context_of o req st body limits in serve_key ctx rag_body ctx.idempotency_key

  unfoldable pub serve_body : RateHeaders → Option Json → Action o Answer
  unfolding serve_built refuse_with
  serve_body limits none = pure (refuse_with 400 "invalid_request" none)
  serve_body limits (some body) = serve_built limits body (ep.build_rag_body body)

  unfoldable pub serve_request : RateHeaders → Action o Answer
  unfolding serve_body refuse_with
  serve_request limits =
      if (caller_of st.identity).org_id == ""
      then pure (refuse_with 403 "organization_required" none)
      else serve_body limits req.body
