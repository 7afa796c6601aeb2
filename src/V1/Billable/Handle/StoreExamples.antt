-- ===== src/V1/Billable/Handle/StoreExamples.antt =====
-- A paid call of an organization with five units left, and its repetition, on a table as the store.
use omnibioai_api_gateway.Prelude.{
  refl, arith, true, true, none, some, [], ◌==◌, if◌then◌else◌, inr,
}
use omnibioai_api_gateway.Prelude.Int.{pos}
use omnibioai_api_gateway.Json.{null, int, arr, nil, str, obj, field, end}
use omnibioai_api_gateway.Redis.{int_text}
use omnibioai_api_gateway.Redis.{Commands}
use omnibioai_api_gateway.V1.Billable.Unlimited.{Like}
use omnibioai_api_gateway.V1.Billable.Handle.Unlimited.{serve_request}
use omnibioai_api_gateway.V1.Billable.Handle.FailsOpen.{open_limits, handle-serve_request}
use omnibioai_api_gateway.Redis.Laws.{View}
use omnibioai_api_gateway.Redis.Steady.Table.{table_commands, table_steady}
use omnibioai_api_gateway.V1.{Answer, success_answer, World, Outside, caller_of, is_test_mode}
use omnibioai_api_gateway.V1Store.{quota_key}
use omnibioai_api_gateway.V1.Billable.Handle.{search_of, handle_billable_literature_call}
use omnibioai_api_gateway.V1.Billable.Handle.Examples.{request, state}
use omnibioai_api_gateway.V1.Billable.Handle.Retry.{Again, again, later, handle-Again}
use omnibioai_api_gateway.V1.Billable.{is_idempotency_key, header_of}
use omnibioai_api_gateway.V1.Billable.Handle.{
  when_read, when_built, with_limits, when_limited, with_claim, with_key, when_begun,
  with_provider_key, with_model_key, byok_model, with_slots, with_limit, slot_limit,
}
use omnibioai_api_gateway.V1.Billable.{
  settle, emit_all, emit_tokens, deliver, conclude, when_reserved, run_call, run_either, forward_to,
}
use omnibioai_api_gateway.V1.{rate_limited, rate_budget, tighter, call_service}
use omnibioai_api_gateway.V1.Usage.{emit_usage, send_or_keep, drain, drain_from, xadd}
use omnibioai_api_gateway.V1Store.{
  hit_rate_limit, rate_key, refill, take_token, reset_after, answer, rate_limit_for_org,
  reserve_quota, idem_key, idempotency_begin, idempotency_finish,
}
use omnibioai_api_gateway.Contract.{
  build_rag_search_query, build_public_search, documents_of, is_question, top_k_of,
}
use omnibioai_api_gateway.Upstream.{forward}
use omnibioai_api_gateway.V1.Billable.Handle.Conserved.{Finish, handle-Conserved}
use omnibioai_api_gateway.V1.Billable.Handle.{answers}
use omnibioai_api_gateway.V1Store.{concurrency_key}

abbrev five_left : View
five_left k =
    if k == "gateway:v1:quota:org1:literature.answer" then some (int_text (pos 5)) else none

abbrev outside : Outside View
outside = record {
  commands = table_commands;
  sha = λ s. s;
  event_id_of = λ s. s;
  fingerprint = λ j. "";
  xadd_works = λ n. true;
  answer =
      λ before call. inr (200, obj (field "summary" (obj (field "text" (str "MDM2.") end)) end));
  now = 0;
  latency_ms = 4;
  uuid = "0";
  idempotency_ttl = 86400;
  rate_limit_per_minute = pos 60;
  reveal_secret = "";
}

abbrev before : World View
before = record { store = five_left; stream = []; attempts = 0; pending = []; calls = [] }

-- What the first request is answered with.
abbrev first : Answer
first =
    success_answer 200
      (obj (
        field "id" (str "srch_t-1") (
          field "results" (arr nil) (
            field "domain" null (
              field "usage"
                (obj (field "searches" (int (pos 1)) (field "latency_ms" (int (pos 4)) end)))
                end)))))
      "t-1" (record { limit = pos 60; remaining = 59; reset = 0 })

abbrev after_first : World View
after_first = (handle_billable_literature_call outside (search_of outside) request state before).1

handle-Again_example : Again outside table_steady state "k1" first after_first (
    handle_billable_literature_call
      (later outside 9)
      (search_of outside)
      request
      (again state "t-2")
      after_first)
unfolding table_steady
handle-Again_example =
    handle-Again outside table_steady (search_of outside) request state "k1" (omega arith)
      (unfold is_idempotency_key in refl) (unfold header_of in refl) first refl refl before
      after_first tt tt 9 "t-2"
      (unfold handle_billable_literature_call caller_of is_test_mode is_idempotency_key header_of
          quota_key when_read when_built with_limits when_limited with_claim with_key when_begun
          with_provider_key with_model_key byok_model with_slots with_limit slot_limit settle
          emit_all emit_tokens deliver conclude when_reserved run_call run_either forward_to
          rate_limited rate_budget tighter call_service emit_usage send_or_keep drain drain_from
          xadd hit_rate_limit rate_key refill take_token reset_after answer rate_limit_for_org
          reserve_quota idem_key idempotency_begin idempotency_finish build_rag_search_query
          build_public_search documents_of is_question top_k_of forward in
        refl)
      refl

handle-Conserved_example :
    Finish outside table_steady
      (answers outside (pos 4))
      request
      state
      (some (pos 5))
      (pos 0)
      (pos 0)
      (unfold caller_of in refl)
      (handle_billable_literature_call outside (answers outside (pos 4)) request state before)
unfolding caller_of
handle-Conserved_example =
    handle-Conserved outside table_steady (answers outside (pos 4)) request state (some (pos 5))
      (pos 0) (pos 0) (unfold caller_of in refl) before
      (unfold table_steady caller_of quota_key concurrency_key in
        record { up = tt; quota = refl; mine = refl; ours = refl })

-- The same gateway, whose store cannot be reached.
abbrev unreachable : Commands (Unit {0})
unreachable = record {
  get = λ k s. (none, s);
  set = λ k v nx ex s. (none, s);
  incr = λ k s. (none, s);
  decr = λ k s. (none, s);
  expire = λ k t s. (none, s);
  delete = λ k s. (none, s);
}

abbrev cut_off : Outside (Unit {0})
cut_off = record {
  commands = unreachable;
  sha = λ s. s;
  event_id_of = λ s. s;
  fingerprint = λ j. "";
  xadd_works = λ n. true;
  answer =
      λ before call. inr (200, obj (field "summary" (obj (field "text" (str "MDM2.") end)) end));
  now = 0;
  latency_ms = 4;
  uuid = "0";
  idempotency_ttl = 86400;
  rate_limit_per_minute = pos 60;
  reveal_secret = "";
}

abbrev quiet : World (Unit {0})
quiet = record { store = tt; stream = []; attempts = 0; pending = []; calls = [] }

handle-serve_request_example :
    Like
      (handle_billable_literature_call cut_off (answers cut_off (pos 4)) request state quiet)
      (serve_request cut_off (answers cut_off (pos 4)) request state (open_limits 59) quiet)
handle-serve_request_example =
    handle-serve_request cut_off
      (record {
        get_raises = λ k s. refl;
        set_raises = λ k v nx ex s. refl;
        incr_raises = λ k s. refl;
      })
      (answers cut_off (pos 4)) request state 59 refl quiet
