-- ===== src/V1/Examples.antt =====
-- A usage event that cannot be written, and the one after it.
use omnibioai_api_gateway.Outbox.Emit.{
  Emitted, emit_on_file, emit_on_file-Usage, emit_on_file-Emitted,
}
use omnibioai_api_gateway.Outbox.{Store}
use omnibioai_api_gateway.Outbox.Usage.{with_pending, always}
use omnibioai_api_gateway.Prelude.{refl, ◌≡◌, arith}
use omnibioai_api_gateway.Prelude.{some, inl, String, [], ◌∷◌, eqb, not}
use omnibioai_api_gateway.Prelude.Int.{pos}
use omnibioai_api_gateway.Json.{int, null}
use omnibioai_api_gateway.MemoryStore.{MemoryStore}
use omnibioai_api_gateway.MemoryStore.Bounds.{init}
use omnibioai_api_gateway.MemoryStore.Commands.{memory_commands}
use omnibioai_api_gateway.V1.{World, Outside, UsageEvent}
use omnibioai_api_gateway.V1.Usage.{emit_usage}

-- The first attempt to write to the stream fails.
abbrev pub outside : Outside MemoryStore
outside = record {
  commands = memory_commands;
  sha = λ s. s;
  event_id_of = λ s. s;
  fingerprint = λ j. "";
  xadd_works = λ n. not (eqb n 0);
  answer = λ before call. inl "ConnectError";
  now = 0;
  latency_ms = 4;
  uuid = "0";
  idempotency_ttl = 86400;
  rate_limit_per_minute = pos 60;
  reveal_secret = "";
}

abbrev an_answer : String → UsageEvent
an_answer id = record {
  event_id = id;
  organization_id = "org1";
  resource = "literature.answer";
  quantity = int (pos 1);
  unit = "requests";
  user_id = "u1";
  trace_id = "t-1";
  metadata = null;
}

-- One event waits from an earlier failure.
abbrev pub waiting : World MemoryStore
waiting = record {
  store = init;
  stream = [];
  attempts = 0;
  pending = an_answer "e1" ∷ [];
  calls = [];
}

-- The file with that event.
abbrev waiting_file : Store UsageEvent (World MemoryStore)
waiting_file = record {
  rows = record { id = 1; event = an_answer "e1" } ∷ [];
  next_id = 2;
  uses = 0;
  world = waiting;
}

-- On a file whose deletions fail, with a stream that works from the second attempt.
emit_on_file-Emitted_example :
    Emitted outside
      (λ n. not (eqb n 1))
      (an_answer "e2")
      waiting_file
      (emit_on_file outside (λ n. not (eqb n 1)) (an_answer "e2") waiting_file)
emit_on_file-Emitted_example =
    emit_on_file-Emitted outside (λ n. not (eqb n 1)) (an_answer "e2") waiting_file
      (tt, omega arith, tt)

emit_on_file-Usage_example : emit_usage outside (an_answer "e2") waiting ≡ (
  some (emit_on_file outside always (an_answer "e2") waiting_file).0,
  with_pending outside (emit_on_file outside always (an_answer "e2") waiting_file).1,
)
emit_on_file-Usage_example =
    emit_on_file-Usage outside (an_answer "e2") waiting_file (tt, omega arith, tt) refl
