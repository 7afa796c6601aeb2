-- ===== src/V1/Billable/Billing.antt =====
-- What a billable call records as usage, on every way through `_handle_billable_literature_call`.
use mathlib.Core.List.{Perm, append_assoc, append-nil}
use mathlib.Core.List.Perm
use omnibioai_api_gateway.Prelude.{
  ℕ, ◌≡◌, refl, ◌∙◌, ◌⊎◌, inl, inr, String, Bool, true, false, Option, none, some, List, [], ◌∷◌,
  ◌++◌, All, Bool-cases, Option-cases,
}
use omnibioai_api_gateway.Prelude.Int.{pos}
use omnibioai_api_gateway.Json.{Json, Fields, int, obj, end, get, ◌or◌, fields_of}
use omnibioai_api_gateway.Exec.{Exec, pure, ◌>>=◌, ◌>>◌}
use omnibioai_api_gateway.Http.{Request, State}
use omnibioai_api_gateway.V1Store.{is_success}
use omnibioai_api_gateway.V1.{World, Outside, UsageEvent, Answer, Caller, call_service}
use omnibioai_api_gateway.V1.Usage.{emit_usage, emit_usage_returns, recorded, emit_usage-recorded}
use omnibioai_api_gateway.V1.Billable.{
  Endpoint, Context, settle, emit_tokens, emit_all, forward_to, deliver, usage_event, unit_metadata,
  dedup_key, is_null, finally, token_input_resource, token_output_resource,
}

-- The answer is one that need not be paid for: an exception, a test call, a replay, or an error.
abbrev pub IsFree : Bool → Option Answer → Type 0
IsFree test_mode none = Unit
IsFree test_mode (some a) = (test_mode ≡ true) ⊎ (a.replayed ≡ true) ⊎ (is_success a.status ≡ false)

-- The event that bills one unit of the endpoint's resource to the caller's organization.
pub record IsBill (ep : Endpoint) (caller : Caller) (trace : String) (e : UsageEvent) : Type 0 where
  pub resource : e.resource ≡ ep.resource
  pub organization : e.organization_id ≡ caller.org_id
  pub quantity : e.quantity ≡ int (pos 1)
  pub trace_id : e.trace_id ≡ trace

abbrev pub IsTokenCount : Caller → UsageEvent → Type 0
IsTokenCount caller e = (e.unit ≡ "tokens") × (e.organization_id ≡ caller.org_id)

module _ {S : Type 0} (o : Outside S) where
  -- A block that records nothing.
  abbrev pub Quiet : {A : Type 0} → Exec (World S) A → Type 0
  Quiet m = (w : World S) → recorded o (m w).1 ≡ recorded o w

  -- What a block has added to the events recorded before it.
  record Adds {A : Type 0} (P : UsageEvent → Type 0) (l : List UsageEvent) (x : Option A × World S)
      : Type 0 where
    returned : (a : A) × (x.0 ≡ some a)
    events : List UsageEvent
    each : All P events
    added : Perm (recorded o x.1) (l ++ events)

  pub bind-Quiet :
      {A B : Type 0} (m : Exec (World S) A) (f : A → Exec (World S) B)
      → Quiet m
      → ((a : A) → Quiet (f a))
      → Quiet (m >>= f)
  bind-Quiet m f h k w = elim (Option-cases (m w).0) [
    | inl raised ↦ rw raised (h w)
    | inr (a, done) ↦ rw done (k a (m w).1 ∙ h w)
  ]

  pub settle-Quiet : (ctx : Context) (status : ℕ) (body : Json) → Quiet (settle o ctx status body)
  unfolding settle
  settle-Quiet ctx status body w = elim (Option-cases ctx.idempotency_key) [
    | inl absent ↦ rw absent
    | inr (key, there) ↦ rw there
  ]

  pub forward_to-Quiet :
      (req : Request) (st : State) (service method path : String) (body : Option Json)
      → Quiet (forward_to o req st service method path body)
  unfolding forward_to call_service
  forward_to-Quiet req st service method path body w = refl

  All-append :
      (P : UsageEvent → Type 0) (es fs : List UsageEvent) → All P es → All P fs → All P (es ++ fs)
  All-append P [] fs h k = k
  All-append P (e ∷ es) fs h k = (h.0, All-append P es fs h.1 k)

  bind-Adds :
      {A B : Type 0} {P : UsageEvent → Type 0} {l : List UsageEvent} (m : Exec (World S) A)
      (f : A → Exec (World S) B) (w : World S)
      → Adds P l (m w)
      → ((a : A) → Adds P (recorded o (m w).1) (f a (m w).1))
      → Adds P l ((m >>= f) w)
  bind-Adds {P} {l} m f w first then_more =
      let (a, done) = first.returned in
      let rest = then_more a in
      rw done (record {
        returned = rest.returned;
        events = first.events ++ rest.events;
        each = All-append P first.events rest.events first.each rest.each;
        added =
            rw (← append_assoc l first.events rest.events)
              (Perm.trans rest.added (Perm.append first.added (Perm.refl rest.events)));
      })

  emit-Adds :
      {P : UsageEvent → Type 0} (e : UsageEvent) (w : World S)
      → P e
      → Adds P (recorded o w) (emit_usage o e w)
  emit-Adds e w h = record {
    returned = emit_usage_returns o e w;
    events = e ∷ [];
    each = (h, tt);
    added = emit_usage-recorded o e w;
  }

  nothing-Adds :
      {A : Type 0} {P : UsageEvent → Type 0} (a : A) (w : World S)
      → Adds P (recorded o w) (some a, w)
  nothing-Adds a w = record {
    returned = (a, refl);
    events = [];
    each = tt;
    added = rw (append-nil (recorded o w)) (Perm.refl _);
  }

  emit_tokens-Adds :
      (ctx : Context) (resource suffix : String) (quantity model : Json) (w : World S)
      → Adds
          (IsTokenCount ctx.caller)
          (recorded o w)
          (emit_tokens o ctx resource suffix quantity model w)
  unfolding emit_tokens
  emit_tokens-Adds ctx resource suffix quantity model w = elim (Bool-cases (is_null o quantity)) [
    | inl absent ↦ rw absent (nothing-Adds tt w)
    | inr there ↦ rw there (
        bind-Adds (emit_usage o _) (λ _. pure tt) w (emit-Adds _ w (refl, refl))
          (λ a. nothing-Adds tt _))
  ]

  -- The usage in what the endpoint makes of a response is an object.
  abbrev pub HasUsage : Endpoint → Type 0
  HasUsage ep =
      (result : Fields) (domain : Json) (request_id : String) (latency_ms : ℕ) (public : Fields)
      → ep.build_public_response result domain request_id latency_ms ≡ some public
      → (usage : Fields) × (fields_of (get "usage" public or obj end) ≡ some usage)

  -- A call that came to the result and the state `x`, with `l` recorded before it: it is free and nothing
  -- was recorded, or it is a real success and was billed once, with its token counts.
  pub data Settled (ep : Endpoint) (caller : Caller) (test_mode : Bool) (trace : String)
      (l : List UsageEvent) (x : Option Answer × World S) : Type 0 where
    free : IsFree test_mode x.0 → recorded o x.1 ≡ l → Settled ep caller test_mode trace l x
    billed :
        (a : Answer) (e : UsageEvent) (tokens : List UsageEvent)
        → x.0 ≡ some a
        → is_success a.status ≡ true
        → a.replayed ≡ false
        → test_mode ≡ false
        → IsBill ep caller trace e
        → All (IsTokenCount caller) tokens
        → Perm (recorded o x.1) (l ++ e ∷ tokens)
        → Settled ep caller test_mode trace l x

  module _ {ep : Endpoint} {caller : Caller} {test_mode : Bool} {trace : String} where
    -- What follows a block that records nothing.
    pub then-Settled :
        {A : Type 0} (m : Exec (World S) A) (f : A → Exec (World S) Answer) (w : World S)
        → Quiet m
        → ((a : A) (w1 : World S) → Settled ep caller test_mode trace (recorded o w1) (f a w1))
        → Settled ep caller test_mode trace (recorded o w) ((m >>= f) w)
    then-Settled m f w h k = elim (Option-cases (m w).0) [
      | inl raised ↦ rw raised (free tt (h w))
      | inr (a, done) ↦ rw done (rw (h w) at (k a (m w).1))
    ]

    pub finally-Settled :
        (m : Exec (World S) Answer) (f : Exec (World S) (Unit {0})) (w : World S)
        {l : List UsageEvent}
        → Settled ep caller test_mode trace l (m w)
        → Quiet f
        → Settled ep caller test_mode trace l (finally o m f w)
    unfolding finally
    finally-Settled m f w (free unpaid same) h = free unpaid (h (m w).1 ∙ same)
    finally-Settled m f w (billed a e tokens r s n t b c p) h =
        billed a e tokens r s n t b c (rw (h (m w).1) p)

  module _ (ep : Endpoint) (ctx : Context) where
    abbrev After : List UsageEvent → Option Answer × World S → Type 0
    After = Settled ep ctx.caller ctx.test_mode ctx.request_id

    both_counts-Adds :
        (input output model : Json) (w : World S)
        → Adds (IsTokenCount ctx.caller) (recorded o w) (
            (emit_tokens o ctx token_input_resource ":tokens:input" input model
                >> emit_tokens o ctx token_output_resource ":tokens:output" output model)
              w)
    both_counts-Adds input output model w =
        bind-Adds (emit_tokens o ctx token_input_resource ":tokens:input" input model)
          (λ _. emit_tokens o ctx token_output_resource ":tokens:output" output model) w
          (emit_tokens-Adds ctx token_input_resource ":tokens:input" input model w)
          (λ a. emit_tokens-Adds ctx token_output_resource ":tokens:output" output model _)

    -- The end of a call that succeeded.
    bill-Settled :
        HasUsage ep
        → (result public : Fields) (a : Answer)
        → ep.build_public_response result ctx.domain ctx.request_id o.latency_ms ≡ some public
        → is_success a.status ≡ true
        → a.replayed ≡ false
        → ctx.test_mode ≡ false
        → (w : World S) → After (recorded o w) ((emit_all o ep ctx public >> pure a) w)
    unfolding emit_all
    bill-Settled has result public a built good fresh real w =
        let e =
          usage_event o ctx ep.resource (dedup_key o ctx) (int (pos 1)) "requests"
            (unit_metadata o ctx) in
        let (sent, emitted) = emit_usage_returns o e w in
        let (usage, there) = has result ctx.domain ctx.request_id o.latency_ms public built in
        let w1 = (emit_usage o e w).1 in
        let counts =
          both_counts-Adds (get "input_tokens" usage) (get "output_tokens" usage)
            (get "model_source" public) w1 in
        let (u, counted) = counts.returned in
        rw (emitted, there, counted)
          (billed a e counts.events refl good fresh real
            (record { resource = refl; organization = refl; quantity = refl; trace_id = refl })
            counts.each
            (rw (← append_assoc (recorded o w) (e ∷ []) counts.events) (
              Perm.trans counts.added
                (Perm.append (emit_usage-recorded o e w) (Perm.refl counts.events)))))

    pub deliver-Settled :
        HasUsage ep
        → (status : ℕ) (response : Json) → is_success status ≡ true
        → ctx.test_mode ≡ false
        → (w : World S) → After (recorded o w) (deliver o ep ctx status response w)
    unfolding deliver
    deliver-Settled has status response good real w = elim (Option-cases (fields_of response)) [
      | inl no_object ↦ rw no_object (free tt refl)
      | inr (result, object) ↦
          elim (Option-cases
            (ep.build_public_response result ctx.domain ctx.request_id o.latency_ms)) [
              | inl malformed ↦ rw (object, malformed) (free tt refl)
              | inr (public, built) ↦
                  rw (object, built)
                    (then-Settled (settle o ctx status (obj public)) _ w
                      (settle-Quiet ctx status (obj public))
                      (λ _ w1. bill-Settled has result public _ built good refl real w1))
            ]
    ]
