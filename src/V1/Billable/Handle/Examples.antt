-- ===== src/V1/Billable/Handle/Examples.antt =====
-- A request to the billable routes.
use omnibioai_api_gateway.Prelude.{Bool, inr, refl, true, none, some, [], ◌∷◌, false}
use omnibioai_api_gateway.Prelude.Int.{pos}
use omnibioai_api_gateway.Json.{str, obj, field, end}
use omnibioai_api_gateway.Http.{Request, State}
use omnibioai_api_gateway.MemoryStore.{MemoryStore}
use omnibioai_api_gateway.V1.{is_test_mode, caller_of, Answer, Outside}
use omnibioai_api_gateway.V1.Examples.{outside, waiting}
use omnibioai_api_gateway.V1.Billable.Handle.{answers, search_of, handle_billable_literature_call}
use omnibioai_api_gateway.V1.Usage.{recorded}
use omnibioai_api_gateway.V1.Billable.Handle.Routes.{
  Served, literature_answers, literature_search, routes-Served,
}
use omnibioai_api_gateway.V1.Billable.Handle.TestMode.{ChangesStore, handle-ChangesStore}

-- A literature service that answers.
abbrev pub answering : Outside MemoryStore
answering = record outside {
  answer =
      λ before call. inr (200, obj (field "summary" (obj (field "text" (str "MDM2.") end)) end));
}

abbrev pub request : Request
request = record {
  method = "POST";
  path = "/v1/literature/answers";
  url = "http://gateway/v1/literature/answers";
  authorization = some "Bearer good";
  trace_header = none;
  headers = ("idempotency-key", "k1") ∷ [];
  query = "";
  body = some (obj (field "question" (str "What binds TP53?") end));
}

abbrev pub state : State
state = record {
  trace_id = "t-1";
  user = none;
  token = some "good";
  identity = some (record {
    user_id = "u1";
    organization_id = some "org1";
    client_id = none;
    permissions = [];
    token_type = "user";
    test_mode = false;
  });
}

-- A response class that takes nothing.
abbrev takes_none : Answer → Bool
takes_none a = false

routes-Served_example :
    Served answering takes_none
      (answers answering (pos 4))
      (caller_of state.identity)
      (is_test_mode state.identity)
      "t-1"
      (recorded answering waiting)
      (handle_billable_literature_call answering
        (answers answering (pos 4))
        request
        state
        waiting).0
      (literature_answers answering takes_none (pos 4) request state waiting)
    × Served answering takes_none
        (search_of answering)
        (caller_of state.identity)
        (is_test_mode state.identity)
        "t-1"
        (recorded answering waiting)
        (handle_billable_literature_call answering (search_of answering) request state waiting).0
        (literature_search answering takes_none request state waiting)
routes-Served_example = routes-Served answering takes_none (pos 4) request state waiting

-- A key of an organization's test mode.
abbrev test_state : State
test_state = record {
  trace_id = "t-2";
  user = none;
  token = some "minted";
  identity = some (record {
    user_id = "u1";
    organization_id = some "org1";
    client_id = some "api_key:k7";
    permissions = [];
    token_type = "api_key";
    test_mode = true;
  });
}

handle-ChangesStore_example : ChangesStore waiting (
    handle_billable_literature_call answering
      (answers answering (pos 4))
      request
      test_state
      waiting)
handle-ChangesStore_example =
    handle-ChangesStore answering (answers answering (pos 4)) request test_state
      (unfold is_test_mode in refl) waiting
