-- ===== src/AuditClient/Signed.antt =====
-- What becomes of an audit event that a middleware fires.
use omnibioai_api_gateway.Prelude.{
  ◌≡◌, refl, ◌⊎◌, inl, inr, String, Option, none, some, [], ◌∷◌, Option-cases,
}
use omnibioai_api_gateway.Json.{Fields, str, obj}
use omnibioai_api_gateway.Dict.{Dict, lookup, insert}
use omnibioai_api_gateway.Text.{◌^^◌}
use omnibioai_api_gateway.Http.{AuditEvent}
use omnibioai_api_gateway.AuditClient.{
  Outside, build_audit_event, Loop, running, stopped, missing, Fate, published, logged, Fired,
  scheduled, dropped, signing_key, signing_message, sign_audit_event, stream_fields, emit,
  fire_audit,
}

module _ {S : Type 0} (out : Outside S) (event_id timestamp : String) (e : AuditEvent) where
  abbrev event : Fields
  event = build_audit_event event_id timestamp "gateway" e

  abbrev payload : String
  payload = out.dumps (obj event)

  abbrev signature : String
  signature = "v1" ^^ ":" ^^ out.hmac_hex (signing_key out) (signing_message out "gateway" payload)

  -- The task ran from `s` to `s'`, with this fate: it made one XADD, of the JSON text of the event and of a
  -- signature of just this text in the name of the gateway; where that raised, the line with the
  -- event's id was printed.
  pub record IsSent (s : S) (x : Option Fate × S) : Type 0 where
    pub fields : Dict String
    pub text : lookup "data" fields ≡ some payload
    pub signed : lookup "sig" fields ≡ some signature
    pub written :
        ((out.xadd "audit:events" fields 1000000 s).0 ≡ some tt)
          × (x ≡ (some published, (out.xadd "audit:events" fields 1000000 s).1))
        ⊎ ((out.xadd "audit:events" fields 1000000 s).0 ≡ none)
          × (x ≡ (some (logged (str event_id)), (out.xadd "audit:events" fields 1000000 s).1))

  abbrev sent_fields : Dict String
  sent_fields = ("data", payload) ∷ ("sig", signature) ∷ []

  gateway_fields : stream_fields out event ≡ some sent_fields
  unfolding stream_fields sign_audit_event build_audit_event insert
  gateway_fields = refl

  emit-IsSent : (s : S) → IsSent s (emit out event s)
  unfolding emit
  emit-IsSent s = record {
    fields = sent_fields;
    text = unfold lookup in refl;
    signed = unfold lookup in refl;
    written = elim (Option-cases (out.xadd "audit:events" sent_fields 1000000 s).0) [
      | inl failed ↦ inr (failed, rw (gateway_fields, failed) (unfold build_audit_event in refl))
      | inr (tt, done) ↦ inl (done, rw (gateway_fields, done) refl)
    ];
  }

  abbrev pub IsFired : Loop → Fired S → Type 0
  IsFired running (scheduled task) = (s : S) → IsSent s (task s)
  IsFired running (dropped id) = ⊥
  IsFired _ (scheduled task) = ⊥
  IsFired _ (dropped id) = id ≡ str event_id

  -- What a middleware fires while the event loop runs becomes a task. Whenever that runs to its end, it has made one
  -- XADD and nothing else, whose data is the JSON text of the event and whose signature is made over
  -- just this text, and where the XADD raised it has printed a line with the event's id. Without a
  -- running loop nothing is sent, and the line with the id is printed at once.
  pub fire_audit-IsFired : (loop : Loop) → IsFired loop (fire_audit out loop event)
  unfolding fire_audit build_audit_event
  fire_audit-IsFired running = emit-IsSent
  fire_audit-IsFired stopped = refl
  fire_audit-IsFired missing = refl
