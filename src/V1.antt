-- ===== src/V1.antt =====
-- app/routes/v1.py: the public API. This module has what its routes run on: the state, the services they
-- call, error responses, the caller, and the two limits.
pub mod Usage
pub mod Billable
pub mod Free
pub mod Balance
pub mod Frame
mod Examples
use omnibioai_api_gateway.Prelude.{
  ◌⊎◌, ℕ, zero, suc, ◌+◌, String, Bool, true, false, ◌&&◌, ◌||◌, Option, none, some, List, [], ◌∷◌,
  ◌++◌, ◌==◌, if◌then◌else◌, ltb, leb, eqb,
}
use omnibioai_api_gateway.Prelude.Int.{ℤ, pos}
use omnibioai_api_gateway.Json.{Json, Fields, null, int, str, obj, field, end}
use omnibioai_api_gateway.Exec.{Exec, pure, catch, ◌>>=◌, ◌>>◌}
use omnibioai_api_gateway.Redis.{Commands}
use omnibioai_api_gateway.Text.{◌^^◌}
use omnibioai_api_gateway.Http.{Request, User, Identity, State}
use omnibioai_api_gateway.Upstream.{Call, forward, text_or_empty}
use omnibioai_api_gateway.V1Store.{
  Hit, hit_rate_limit, rate_limit_for_org, acquire_concurrency_slot, release_concurrency_slot,
}

-- One billable usage event, without its timestamp and its two constant fields.
pub record UsageEvent : Type 0 where
  pub event_id : String
  pub organization_id : String
  pub resource : String
  pub quantity : Json
  pub unit : String
  pub user_id : String
  pub trace_id : String
  pub metadata : Json

-- The Redis store, the usage stream with the number of attempts to write to it, the outbox of
-- app/services/outbox.py with its oldest event first, and the calls that the gateway has made.
pub record World (S : Type 0) : Type 0 where
  pub store : S
  pub stream : List UsageEvent
  pub attempts : ℕ
  pub pending : List UsageEvent
  pub calls : List Call

-- What stands outside the code: the store's commands, hashes and fresh identifiers, whether the n-th XADD
-- succeeds, what a service answers to a call after those before it, and the clock and configuration.
pub record Outside (S : Type 0) : Type 0 where
  pub commands : Commands S
  pub sha : String → String
  pub event_id_of : String → String
  pub fingerprint : Json → String
  pub xadd_works : ℕ → Bool
  pub answer : List Call → Call → String ⊎ (ℕ × Json)
  pub now : ℕ
  pub latency_ms : ℕ
  pub uuid : String
  pub idempotency_ttl : ℕ
  pub rate_limit_per_minute : ℤ
  pub reveal_secret : String

-- The X-RateLimit-* headers.
pub record RateHeaders : Type 0 where
  pub limit : ℤ
  pub remaining : ℕ
  pub reset : ℕ

-- What is passed to JSONResponse, with its headers. A handler ends with that, and JSONResponse may raise for the
-- body: V1/Billable/Handle/Routes has it.
pub record Answer : Type 0 where
  pub status : ℕ
  pub body : Json
  pub request_id : String
  pub limits : Option RateHeaders
  pub retry_after : Option ℕ
  pub replayed : Bool

abbrev pub detail_field : Option Json → Fields
detail_field none = end
detail_field (some null) = end
detail_field (some d) = field "detail" d end

-- `_error`, without the message
abbrev pub error_answer : ℕ → String → String → Option RateHeaders → Option Json → Answer
error_answer status error_type request_id limits detail = record {
  status = status;
  body = obj (
      field "error"
        (obj (
          field "type" (str error_type)
            (field "request_id" (str request_id) (detail_field detail))))
        end);
  request_id = request_id;
  limits = limits;
  retry_after = none;
  replayed = false;
}

-- JSONResponse(body, status_code=status, headers=…)
abbrev pub success_answer : ℕ → Json → String → RateHeaders → Answer
success_answer status body request_id limits = record {
  status = status;
  body = body;
  request_id = request_id;
  limits = some limits;
  retry_after = none;
  replayed = false;
}

-- `_caller`
pub record Caller : Type 0 where
  pub subject : String
  pub org_id : String
  pub user_id : String

unfoldable pub caller_of : Option Identity → Caller
caller_of none = record { subject = "user:"; org_id = ""; user_id = "" }
caller_of (some i) =
    let client = text_or_empty i.client_id in
    record {
      subject = if client == "" then "user:" ^^ i.user_id else client;
      org_id = text_or_empty i.organization_id;
      user_id = i.user_id;
    }

unfoldable pub is_test_mode : Option Identity → Bool
is_test_mode none = false
is_test_mode (some i) = i.test_mode

-- `_upstream_error`
unfoldable pub upstream_error : ℕ → Json → String → RateHeaders → Answer
upstream_error status response request_id limits =
    if leb 500 status
    then error_answer (if eqb status 500 then 502 else status) "upstream_error" request_id
        (some limits) none
    else error_answer status
        (if eqb status 400 || eqb status 422 then "invalid_request" else "request_failed")
        request_id (some limits) (some response)

module _ {S : Type 0} (o : Outside S) where
  -- A method of the store.
  abbrev pub on_store : {A : Type 0} → Exec S A → Exec (World S) A
  on_store m w = let (r, s) = m w.store in (r, record w { store = s })

  -- `proxy.forward`
  unfoldable pub call_service : Call → Exec (World S) (ℕ × Json)
  unfolding forward
  call_service call w =
      (some (forward (o.answer w.calls) call), record w { calls = w.calls ++ call ∷ [] })

  -- The call's result of the tighter of the two budgets, and whether both allow.
  unfoldable pub tighter : Hit → Hit → Hit
  tighter (key_allowed, key_remaining, key_reset) (org_allowed, org_remaining, org_reset) =
      if leb org_remaining key_remaining
      then (key_allowed && org_allowed, org_remaining, org_reset)
      else (key_allowed && org_allowed, key_remaining, key_reset)

  abbrev limit_or : Option ℤ → ℤ
  limit_or none = o.rate_limit_per_minute
  limit_or (some l) = l

  abbrev limited : Caller → String → ℤ → Hit → RateHeaders × Option Answer
  limited c request_id limit (allowed, remaining, reset) =
      let headers : RateHeaders = record { limit = limit; remaining = remaining; reset = reset } in
      (
        headers,
        (if allowed
            then none
            else some
                (record (error_answer 429 "rate_limit_exceeded" request_id (some headers) none) {
                  retry_after = some reset;
                })),
      )

  -- The limit of a call, and what is left of the tighter of its two budgets.
  pub rate_budget : Caller → Exec S (ℤ × Hit)
  unfolding tighter
  rate_budget c = do
    org_limit ← if c.org_id == "" then pure none else rate_limit_for_org o.commands c.org_id
    let limit = limit_or org_limit
    key_hit ← hit_rate_limit o.commands c.subject limit o.now
    org_hit ←
        if c.org_id == ""
        then pure (true, key_hit.1, key_hit.2)
        else hit_rate_limit o.commands ("org:" ^^ c.org_id) limit o.now
    pure (limit, tighter key_hit org_hit)

  -- `_rate_limited`
  pub rate_limited : Caller → String → Exec S (RateHeaders × Option Answer)
  rate_limited c request_id = do
    budget ← rate_budget c
    pure (limited c request_id budget.0 budget.1)

  -- `_acquire_concurrency_slots`, `_release_concurrency_slots`
  unfoldable pub acquire_concurrency_slots : Caller → ℤ → Exec S Bool
  acquire_concurrency_slots c limit = do
    mine ← acquire_concurrency_slot o.commands c.subject limit
    if mine
        then (if c.org_id == "" then pure true else do
          ours ← acquire_concurrency_slot o.commands ("org:" ^^ c.org_id) limit
          if ours then pure true else (release_concurrency_slot o.commands c.subject >> pure false))
        else pure false

  unfoldable pub release_concurrency_slots : Caller → Exec S (Unit {0})
  release_concurrency_slots c = do
    release_concurrency_slot o.commands c.subject
    if c.org_id == "" then pure tt else release_concurrency_slot o.commands ("org:" ^^ c.org_id)
