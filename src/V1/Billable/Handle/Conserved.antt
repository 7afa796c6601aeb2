-- ===== src/V1/Billable/Handle/Conserved.antt =====
-- A request to `_handle_billable_literature_call` as a whole, and what it leaves of the quota and the slots.
use omnibioai_api_gateway.Prelude.{
  ◌≡◌, refl, inl, inr, false, Option, none, some, ◌==◌, Bool-cases, Option-cases,
}
use omnibioai_api_gateway.Prelude.Int.{ℤ}
use omnibioai_api_gateway.Json.{Json, Fields}
use omnibioai_api_gateway.Http.{Request, State}
use omnibioai_api_gateway.Redis.Steady.{Steady}
use omnibioai_api_gateway.V1Store.{is_success}
use omnibioai_api_gateway.V1.{
  World, Outside, Answer, RateHeaders, caller_of, is_test_mode, rate_limited, rate_budget, limited,
}
use omnibioai_api_gateway.Contract.{Built, query, unsupported, crashed}
use omnibioai_api_gateway.V1.Balance.{org_subject}
use omnibioai_api_gateway.V1.Balance.Steps.{rate_limited-Standing}
use omnibioai_api_gateway.V1.Billable.{Endpoint}
use omnibioai_api_gateway.V1.Billable.Balanced.{CountersAt, Conserved, unpaid}
use omnibioai_api_gateway.V1.Billable.Handle.{
  with_claim, with_limits, handle_billable_literature_call, context_of, when_built, when_read,
  when_limited,
}
use omnibioai_api_gateway.V1.Billable.Handle.Lifecycle.{limited_fails}
use omnibioai_api_gateway.V1.Billable.Handle.Balanced.{with_key-Balanced}

module _ {S : Type 0} (o : Outside S) (store : Steady o.commands) (ep : Endpoint) where
  module _ (req : Request) (st : State) (q : Option ℤ) (a b : ℤ)
      (distinct : ((caller_of st.identity).subject == org_subject (caller_of st.identity).org_id)
        ≡ false) where
    abbrev pub Start : World S → Type 0
    Start = CountersAt o store ep (caller_of st.identity) (is_test_mode st.identity) q a b

    abbrev pub Finish : Option Answer × World S → Type 0
    Finish = Conserved o store ep (caller_of st.identity) (is_test_mode st.identity) q a b

    when_limited-Conserved :
        ((caller_of st.identity).org_id == "") ≡ false
        → (body : Json) (rag_body : Fields) (limited : RateHeaders × Option Answer) (w : World S)
        → ((x : Answer) → limited.1 ≡ some x → is_success x.status ≡ false)
        → Start w
        → Finish (when_limited o ep req st body rag_body limited w)
    unfolding when_limited with_claim
    when_limited-Conserved known body rag_body (limits, none) w fails h =
        let ctx = context_of o req st body limits in
        with_key-Balanced o store ep req st ctx distinct known q a b rag_body ctx.idempotency_key w
          h
    when_limited-Conserved known body rag_body (limits, some answer) w fails h =
        unpaid (inr (inr (fails answer refl))) h

    with_limits-Conserved :
        ((caller_of st.identity).org_id == "") ≡ false
        → (body : Json) (rag_body : Fields) (w : World S) → Start w
        → Finish (with_limits o ep req st body rag_body w)
    unfolding with_limits rate_limited
    with_limits-Conserved known body rag_body w h =
        let c = caller_of st.identity in
        let kept = rate_limited-Standing o store c ep.resource q a b st.trace_id w.store h in
        elim (Option-cases (rate_budget o c w.store).0) [
          | inl raised ↦ rw raised (unpaid tt (rw raised at kept))
          | inr ((limit, hit), told) ↦ rw told (
              when_limited-Conserved known body rag_body (limited o c st.trace_id limit hit)
                (record w { store = (rate_budget o c w.store).1 })
                (limited_fails o ep req st c limit hit) (rw told at kept))
        ]

    when_built-Conserved :
        ((caller_of st.identity).org_id == "") ≡ false
        → (body : Json) (built : Built) (w : World S) → Start w
        → Finish (when_built o ep req st body built w)
    unfolding when_built
    when_built-Conserved known body crashed w h = unpaid tt h
    when_built-Conserved known body (unsupported name) w h = unpaid (inr (inr refl)) h
    when_built-Conserved known body (query rag_body) w h =
        with_limits-Conserved known body rag_body w h

    when_read-Conserved :
        ((caller_of st.identity).org_id == "") ≡ false
        → (body : Option Json) (w : World S) → Start w
        → Finish (when_read o ep req st body w)
    unfolding when_read
    when_read-Conserved known none w h = unpaid (inr (inr refl)) h
    when_read-Conserved known (some body) w h =
        when_built-Conserved known body (ep.build_rag_body body) w h

    -- On a store that is up, a billable request, however it ends and also if it raises, leaves as many requests
    -- in flight as it found, for the caller and for its organization. The quota stays as it is if the answer
    -- is free; a unit is taken, from a quota that had one, only by a call without a test key that
    -- succeeds and is no replay, or that raises. The caller's name is not "org:" and its organization.
    pub handle-Conserved :
        (w : World S) → Start w → Finish (handle_billable_literature_call o ep req st w)
    unfolding handle_billable_literature_call
    handle-Conserved w h = elim (Bool-cases ((caller_of st.identity).org_id == "")) [
      | inl nobody ↦ rw nobody (unpaid (inr (inr refl)) h)
      | inr somebody ↦ rw somebody (when_read-Conserved somebody req.body w h)
    ]
