-- ===== src/V1/Billable/Handle/Retry.antt =====
-- Two requests to `_handle_billable_literature_call` with one Idempotency-Key.
use omnibioai_api_gateway.Prelude.{
  ℕ, ◌∙◌, ◌≤◌, ◌≡◌, sym, ap, inl, inr, String, true, false, Option, none, some, ◌==◌, Bool-cases,
}
use omnibioai_api_gateway.Json.{Json}
use omnibioai_api_gateway.Http.{Request, State}
use mathlib.Core.Option.{some-injective}
use omnibioai_api_gateway.V1.Billable.Handle.TestMode.{ChangesStore}
use omnibioai_api_gateway.Redis.Steady.{Steady}
use omnibioai_api_gateway.V1Store.{idem_key, is_success}
use omnibioai_api_gateway.V1.{World, Outside, Answer, caller_of}
use omnibioai_api_gateway.Contract.{Built, query, unsupported, crashed}
use omnibioai_api_gateway.V1.Billable.{header_of, Endpoint, is_idempotency_key}
use omnibioai_api_gateway.V1.Billable.Handle.{
  handle_billable_literature_call, when_built, when_read,
}
use omnibioai_api_gateway.V1.Billable.Handle.Replays.{
  Repeats, with_limits-Replays, with_limits-Remembered,
}

-- The gateway, and the request, at a later time.
abbrev pub later : {S : Type 0} → Outside S → ℕ → Outside S
later o now = record o { now = now }

abbrev pub again : State → String → State
again st trace = record st { trace_id = trace }

module _ {S : Type 0} (o : Outside S) (store : Steady o.commands) (st : State) (key : String) where
  abbrev pub claim_key : String
  claim_key = idem_key o.commands o.sha o.idempotency_ttl (caller_of st.identity).subject key

  -- The second time, the answer repeats the first one or is refused, nothing else but the store
  -- changes, and the claim stays for a third.
  abbrev pub Again : Answer → World S → Option Answer × World S → Type 0
  Again a w x =
      Repeats a.status a.body x.0
      × ChangesStore w x
      × (store.view x.1.store claim_key ≡ store.view w.store claim_key)

  -- The claim of the first is still there before the second.
  abbrev pub StillThere : World S → Option Answer × World S → Type 0
  StillThere w' x = store.view w'.store claim_key ≡ store.view x.1.store claim_key

module _ {S : Type 0} (o : Outside S) (store : Steady o.commands) (ep : Endpoint) (req : Request)
    (st : State) (key : String) (lasting : 1 ≤ o.idempotency_ttl)
    (legal : is_idempotency_key key ≡ true)
    (named : header_of "idempotency-key" req.headers ≡ some key) where
  module _ (a : Answer) (good : is_success a.status ≡ true) (fresh : a.replayed ≡ false)
      (w w' : World S) (up : store.IsUp w.store) (up' : store.IsUp w'.store) (now : ℕ)
      (trace : String) where
    built-Again :
        (sent : Json) (built : Built)
        → (when_built o ep req st sent built w).0 ≡ some a
        → StillThere o store st key w' (when_built o ep req st sent built w)
        → Again o store st key a w' (when_built (later o now) ep req (again st trace) sent built w')
    unfolding when_built
    built-Again sent crashed answered still = cc
    built-Again sent (unsupported name) answered still =
        cc (ap (λ (x : Answer). is_success x.status) (some-injective _ _ answered), good)
    built-Again sent (query rag_body) answered still =
        let stored =
          with_limits-Remembered o store ep req key lasting legal st named sent rag_body w up a
            answered good fresh in
        let r =
          with_limits-Replays (later o now) store ep req key lasting legal (again st trace) named
            sent rag_body a.status a.body w' (up', still ∙ stored.1) in
        (r.answered, r.nothing_else, r.claimed.1 ∙ sym (still ∙ stored.1))

    read-Again :
        (body : Option Json)
        → (when_read o ep req st body w).0 ≡ some a
        → StillThere o store st key w' (when_read o ep req st body w)
        → Again o store st key a w' (when_read (later o now) ep req (again st trace) body w')
    unfolding when_read
    read-Again none answered still =
        cc (ap (λ (x : Answer). is_success x.status) (some-injective _ _ answered), good)
    read-Again (some sent) answered still = built-Again sent (ep.build_rag_body sent) answered still

    -- On a store that is up, with a time to live that is not zero, a billable request with a legal
    -- Idempotency-Key succeeded and was no replay. The same request comes again, at whatever time
    -- and with whatever trace, to a state of the world, however it came about, where the store is up and the
    -- value under the key is what the first request left. Then it is answered with the
    -- first one's status and body as a replay, or with 429 for its rate: no service is called, no usage
    -- event is emitted, and the value under the key stays for the next.
    pub handle-Again :
        (handle_billable_literature_call o ep req st w).0 ≡ some a
        → StillThere o store st key w' (handle_billable_literature_call o ep req st w)
        → Again o store st key a w'
            (handle_billable_literature_call (later o now) ep req (again st trace) w')
    unfolding handle_billable_literature_call
    handle-Again answered still = elim (Bool-cases ((caller_of st.identity).org_id == "")) [
      | inl nobody ↦ cc (
        ap (λ (x : Answer). is_success x.status) (some-injective _ _ (rw nobody at answered)),
        good,
      )
      | inr somebody ↦
          rw somebody (read-Again req.body (rw somebody at answered) (rw somebody at still))
    ]
