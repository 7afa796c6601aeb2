-- ===== src/V1/Billable/Handle/Routes.antt =====
-- `literature_answers` and `literature_search`: what they record as usage.
use mathlib.Core.List.{Perm}
use omnibioai_api_gateway.Prelude.{
  ◌≡◌, refl, ap, sym, ◌∙◌, inl, inr, String, Bool, true, false, Option, none, some, List, ◌∷◌, ◌++◌,
  All, Bool-cases, if◌then◌else◌,
}
use omnibioai_api_gateway.V1Store.{is_success}
use omnibioai_api_gateway.V1.Usage.{recorded}
use omnibioai_api_gateway.V1.Billable.{Action, Endpoint}
use omnibioai_api_gateway.Prelude.Int.{ℤ}
use omnibioai_api_gateway.Http.{Request, State}
use omnibioai_api_gateway.Contract.Responses.{build_public_answer-usage, build_public_search-usage}
use omnibioai_api_gateway.V1.{Outside, World, Answer, UsageEvent, Caller, caller_of, is_test_mode}
use omnibioai_api_gateway.V1.Billable.Handle.{answers, search_of, handle_billable_literature_call}
use omnibioai_api_gateway.V1.Billable.Billing.{
  HasUsage, IsBill, IsTokenCount, Settled, free, billed,
}
use omnibioai_api_gateway.V1.Billable.Handle.Lifecycle.{handle-Settled}

module _ {S : Type 0} (o : Outside S) where
  answers-HasUsage : (max_concurrent : ℤ) → HasUsage o (answers o max_concurrent)
  answers-HasUsage max_concurrent = build_public_answer-usage o.uuid

  search_of-HasUsage : HasUsage o (search_of o)
  search_of-HasUsage = build_public_search-usage o.uuid

  -- `renders` is whether JSONResponse takes an answer: json.dumps with allow_nan=False raises for some bodies.
  module _ (renders : Answer → Bool) where
    -- The JSONResponse that a handler ends with. What `finally` does meanwhile does not depend on it.
    abbrev pub respond : Option Answer × World S → Option Answer × World S
    respond (none, w) = (none, w)
    respond (some a, w) = (if renders a then some a else none, w)

    unfoldable pub literature_answers : ℤ → Request → State → Action o Answer
    literature_answers max_concurrent req st w =
        respond (handle_billable_literature_call o (answers o max_concurrent) req st w)

    unfoldable pub literature_search : Request → State → Action o Answer
    literature_search req st w = respond (handle_billable_literature_call o (search_of o) req st w)

    -- The end of a request that the handler `made` an answer for, with `l` recorded before it. `settled`: it is free and
    -- nothing is recorded, or it is a success and billed. `unrendered`: it raised, since
    -- JSONResponse does not take the success that was billed.
    pub data Served (ep : Endpoint) (caller : Caller) (test_mode : Bool) (trace : String)
        (l : List UsageEvent) (made : Option Answer) (x : Option Answer × World S) : Type 0 where
      settled : Settled o ep caller test_mode trace l x → Served ep caller test_mode trace l made x
      unrendered :
          (a : Answer) (e : UsageEvent) (tokens : List UsageEvent)
          → made ≡ some a
          → renders a ≡ false
          → x.0 ≡ none
          → is_success a.status ≡ true
          → a.replayed ≡ false
          → test_mode ≡ false
          → IsBill ep caller trace e
          → All (IsTokenCount caller) tokens
          → Perm (recorded o x.1) (l ++ e ∷ tokens)
          → Served ep caller test_mode trace l made x

    abbrev takes : Option Answer → Bool
    takes none = true
    takes (some a) = renders a

    module _ {ep : Endpoint} {caller : Caller} {test_mode : Bool} {trace : String}
        {l : List UsageEvent} where
      refused-Served :
          (a : Answer) (w : World S)
          → renders a ≡ false
          → Settled o ep caller test_mode trace l (some a, w)
          → Served ep caller test_mode trace l (some a) (none, w)
      refused-Served a w refused (free unpaid same) = settled (free tt same)
      refused-Served a w refused (billed b e tokens r s n t bill counts p) =
          unrendered b e tokens r (ap takes (sym r) ∙ refused) refl s n t bill counts p

      respond-Served :
          (x : Option Answer × World S)
          → Settled o ep caller test_mode trace l x
          → Served ep caller test_mode trace l x.0 (respond x)
      respond-Served (none, w) h = settled h
      respond-Served (some a, w) h = elim (Bool-cases (renders a)) [
        | inl taken ↦ rw taken (settled h)
        | inr refused ↦ rw refused (refused-Served a w refused h)
      ]

    -- Whatever the store, the literature service and the usage stream do, a request to either of the two billable
    -- routes comes to one of three ends. It records no usage event, and its answer is no real success
    -- of its own: it raised, or is a test call, a replay or an error. Or it succeeded, and then
    -- recorded exactly one event for one unit of the route's resource, for the caller's
    -- organization and with the request's trace id, and beside it only token counts for that
    -- organization. Or it recorded just these for a success that JSONResponse does not take, and
    -- raised.
    pub routes-Served :
        (max_concurrent : ℤ) (req : Request) (st : State) (w : World S)
        → Served
            (answers o max_concurrent)
            (caller_of st.identity)
            (is_test_mode st.identity)
            st.trace_id
            (recorded o w)
            (handle_billable_literature_call o (answers o max_concurrent) req st w).0
            (literature_answers max_concurrent req st w)
          × Served
              (search_of o)
              (caller_of st.identity)
              (is_test_mode st.identity)
              st.trace_id
              (recorded o w)
              (handle_billable_literature_call o (search_of o) req st w).0
              (literature_search req st w)
    unfolding literature_answers literature_search
    routes-Served max_concurrent req st w = (
      respond-Served _
          (handle-Settled o (answers o max_concurrent) req st (answers-HasUsage max_concurrent) w),
      respond-Served _ (handle-Settled o (search_of o) req st search_of-HasUsage w),
    )
