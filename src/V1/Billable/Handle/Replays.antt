-- ===== src/V1/Billable/Handle/Replays.antt =====
-- A request whose Idempotency-Key has a result, and one that leaves it, from the rate limits on.
use omnibioai_api_gateway.Prelude.{
  ℕ, zero, suc, eq_refl, ◌∙◌, ◌≤◌, ◌≡◌, refl, inl, inr, String, true, false, Option, none, some,
  ◌==◌, Bool-cases,
}
use omnibioai_api_gateway.Prelude.Int.{ℤ}
use omnibioai_api_gateway.Json.{Json, Fields}
use omnibioai_api_gateway.Http.{Request, State}
use omnibioai_api_gateway.Text.{◌^^◌}
use omnibioai_api_gateway.V1.Billable.Handle.TestMode.{ChangesStore}
use omnibioai_api_gateway.Redis.{Commands}
use omnibioai_api_gateway.V1Store.Idempotency.{done as stored_claim, begin_present}
use omnibioai_api_gateway.V1Store.RateLimit.Refinement.{
  hit_rate_limit_returns, rate_limit_for_org_returns,
}
use omnibioai_api_gateway.Redis.Steady.{Steady, Holding, steady_laws, IsUp-Leaves, other-Leaves}
use omnibioai_api_gateway.V1.Frame.{rate_limited-Keeps}
use omnibioai_api_gateway.V1Store.Keys.{rate_ne_idem}
use omnibioai_api_gateway.V1.Billable.Handle.Remembered.{with_key-Remembered}
use omnibioai_api_gateway.V1.Billable.Remembered.{IsUp, HasClaim, Remembered, failure-Remembered}
use omnibioai_api_gateway.V1Store.{
  rate_key, idem_key, hit_rate_limit, rate_limit_for_org, Hit, replay, idempotency_begin,
}
use omnibioai_api_gateway.V1.{
  World, Outside, Answer, Caller, caller_of, rate_limited, rate_budget, limit_or, limited,
}
use omnibioai_api_gateway.V1.Billable.{header_of, Endpoint, Context, is_idempotency_key}
use omnibioai_api_gateway.V1.Billable.Handle.{
  replayed_answer, with_claim, with_limits, with_key, when_begun, when_limited,
}

-- A claim with a result is replayed to a request with its fingerprint, and stays.
begin-replays :
    {S : Type 0} {c : Commands S} (store : Steady c) (sha : String → String) (ttl : ℕ)
    (subject key fingerprint : String) (status : ℕ) (body : Json)
    → 1 ≤ ttl
    → (s : S)
    → Holding store (idem_key c sha ttl subject key) (stored_claim fingerprint status body) s
    → let x = idempotency_begin c sha ttl subject key fingerprint s in
      (x.0 ≡ some (replay status body))
      × Holding store (idem_key c sha ttl subject key) (stored_claim fingerprint status body) x.1
begin-replays store sha zero subject key fingerprint status body lasting s held = elim lasting [ ]
begin-replays {c} store sha (suc t) subject key fingerprint status body lasting s held =
    let run =
      begin_present c (steady_laws store) sha t subject key fingerprint
        (stored_claim fingerprint status body) (replay status body) 0 s held.0 held.1
        (rw (eq_refl fingerprint)) in
    (run.returned, (run.room, run.values _ ∙ held.1))

module _ {S : Type 0} (o : Outside S) (who : Caller) where
  -- Looking at the rate limits never raises.
  rate_budget_returns : (s : S) → (found : ℤ × Hit) × ((rate_budget o who s).0 ≡ some found)
  unfolding rate_budget
  rate_budget_returns s = elim (Bool-cases (who.org_id == "")) [
    | inl nobody ↦
        let (mine, got) = hit_rate_limit_returns o.commands who.subject (limit_or o none) o.now s in
        rw (nobody, got) (_, refl)
    | inr somebody ↦
        let (l, read) = rate_limit_for_org_returns o.commands who.org_id s in
        let s1 = (rate_limit_for_org o.commands who.org_id s).1 in
        let (mine, got) = hit_rate_limit_returns o.commands who.subject (limit_or o l) o.now s1 in
        let s2 = (hit_rate_limit o.commands who.subject (limit_or o l) o.now s1).1 in
        let (ours, had) =
          hit_rate_limit_returns o.commands ("org:" ^^ who.org_id) (limit_or o l) o.now s2 in
        rw (somebody, read, got, had) (_, refl)
  ]

-- The answer repeats an earlier one, or the rate limit refuses it.
pub data Repeats (status : ℕ) (body : Json) (x : Option Answer) : Type 0 where
  repeated :
      (a : Answer)
      → x ≡ some a
      → a.status ≡ status
      → a.body ≡ body
      → a.replayed ≡ true
      → Repeats status body x
  too_many : (a : Answer) → x ≡ some a → a.status ≡ 429 → Repeats status body x

module _ {S : Type 0} (o : Outside S) (store : Steady o.commands) (ep : Endpoint) (req : Request)
    (key : String) where
  -- From `w` a request came to a repetition of a result that is claimed, and did nothing else but count.
  pub record Replays (who : Caller) (fingerprint : String) (status : ℕ) (body : Json) (w : World S)
      (x : Option Answer × World S) : Type 0 where
    pub answered : Repeats status body x.0
    pub nothing_else : ChangesStore w x
    pub claimed : HasClaim o store who.subject key fingerprint status body x.1.store

  module _ (lasting : 1 ≤ o.idempotency_ttl) (legal : is_idempotency_key key ≡ true) (st : State)
      (named : header_of "idempotency-key" req.headers ≡ some key) where
    with_claim-Replays :
        (ctx : Context) (rag_body : Fields) (status : ℕ) (body : Json) (w : World S)
        → HasClaim o store ctx.caller.subject key ctx.fingerprint status body w.store
        → Replays ctx.caller ctx.fingerprint status body w
            (with_key o ep req st ctx rag_body (some key) w)
    unfolding with_key when_begun
    with_claim-Replays ctx rag_body status body w held =
        let (told, kept) =
          begin-replays store o.sha o.idempotency_ttl ctx.caller.subject key ctx.fingerprint status
            body lasting w.store held in
        rw (legal, told)
          (record {
            answered = repeated (replayed_answer o ctx status body) refl refl refl refl;
            nothing_else = (_, refl);
            claimed = kept;
          })

    when_limited-Replays :
        (sent : Json) (rag_body : Fields) (budget : ℤ × Hit) (status : ℕ) (body : Json)
        (w : World S)
        → HasClaim o store
            (caller_of st.identity).subject
            key
            (o.fingerprint sent)
            status
            body
            w.store
        → Replays (caller_of st.identity) (o.fingerprint sent) status body w (
            when_limited o ep req st sent rag_body
              (limited o (caller_of st.identity) st.trace_id budget.0 budget.1)
              w)
    unfolding when_limited with_claim
    when_limited-Replays sent rag_body (limit, (true, remaining, reset)) status body w held =
        rw named (with_claim-Replays _ rag_body status body w held)
    when_limited-Replays sent rag_body (limit, (false, remaining, reset)) status body w held =
        record { answered = too_many _ refl refl; nothing_else = (_, refl); claimed = held }

    pub with_limits-Replays :
        (sent : Json) (rag_body : Fields) (status : ℕ) (body : Json) (w : World S)
        → HasClaim o store
            (caller_of st.identity).subject
            key
            (o.fingerprint sent)
            status
            body
            w.store
        → Replays
            (caller_of st.identity)
            (o.fingerprint sent)
            status
            body
            w
            (with_limits o ep req st sent rag_body w)
    unfolding with_limits rate_limited
    with_limits-Replays sent rag_body status body w held =
        let who = caller_of st.identity in
        let (budget, told) = rate_budget_returns o who w.store in
        let kept =
          rate_limited-Keeps o (HasClaim o store who.subject key (o.fingerprint sent) status body)
            who st.trace_id
            (λ x.
              other-Leaves store _ _ (rate_key o.commands x)
                (rate_ne_idem o.commands o.sha o.idempotency_ttl who.subject key x))
            w.store held in
        let replayed =
          when_limited-Replays sent rag_body budget status body
            (record w { store = (rate_budget o who w.store).1 }) (rw told at kept) in
        rw told (record {
          answered = replayed.answered;
          nothing_else = replayed.nothing_else;
          claimed = replayed.claimed;
        })

    when_limited-Remembered :
        (sent : Json) (rag_body : Fields) (budget : ℤ × Hit) (w : World S)
        → IsUp o store w
        → Remembered o store (caller_of st.identity).subject key (o.fingerprint sent) (
            when_limited o ep req st sent rag_body
              (limited o (caller_of st.identity) st.trace_id budget.0 budget.1)
              w)
    unfolding when_limited with_claim
    when_limited-Remembered sent rag_body (limit, (true, remaining, reset)) w up =
        rw named (with_key-Remembered o store lasting ep req st _ key refl rag_body w up)
    when_limited-Remembered sent rag_body (limit, (false, remaining, reset)) w up =
        failure-Remembered o store (caller_of st.identity).subject key (o.fingerprint sent) _ w refl

    pub with_limits-Remembered :
        (sent : Json) (rag_body : Fields) (w : World S)
        → IsUp o store w
        → Remembered o store
            (caller_of st.identity).subject
            key
            (o.fingerprint sent)
            (with_limits o ep req st sent rag_body w)
    unfolding with_limits rate_limited
    with_limits-Remembered sent rag_body w up =
        let who = caller_of st.identity in
        let (budget, told) = rate_budget_returns o who w.store in
        let kept =
          rate_limited-Keeps o store.IsUp who st.trace_id (λ x. IsUp-Leaves store _) w.store up in
        rw told (
          when_limited-Remembered sent rag_body budget
            (record w { store = (rate_budget o who w.store).1 }) (rw told at kept))
