-- ===== src/AuditClient.antt =====
-- app/services/audit_client.py: the payload, the signature and the sending of audit events.
pub mod Signed
mod Examples
use omnibioai_api_gateway.Prelude.{
  ℕ, String, Bool, true, false, Option, none, some, List, [], ◌∷◌, ◌==◌, if◌then◌else◌,
}
use omnibioai_api_gateway.Json.{
  Json, Fields, null, bool, int, float, str, arr, obj, field, end, get, truthy,
}
use omnibioai_api_gateway.Dict.{Dict, insert}
use omnibioai_api_gateway.Exec.{Exec, pure, or_raise, catch, ◌>>=◌, ◌>>◌}
use omnibioai_api_gateway.Text.{◌^^◌}
use omnibioai_api_gateway.Http.{AuditEvent}
use omnibioai_api_gateway.RequestState.{or_null}

-- What the client calls: `xadd stream fields maxlen`, `json.dumps(event, default=str)`, the digest of
-- SHA-256, the hexdigest of an HMAC-SHA256 under a key, `str()` of a value that is no text, and
-- Config.JWT_SECRET.
pub record Outside (S : Type 0) : Type 0 where
  pub xadd : String → Dict String → ℕ → Exec S (Unit {0})
  pub dumps : Json → String
  pub digest : String → String
  pub hmac_hex : String → String → String
  pub print : Json → String
  pub secret : String

-- `build_audit_event`, with its fresh id, the time, and the service
unfoldable pub build_audit_event : String → String → String → AuditEvent → Fields
build_audit_event event_id timestamp service e = field "event_id" (str event_id) (
    field "timestamp" (str timestamp) (
      field "service" (str service) (
        field "event_type" (str e.event_type) (
          field "user_id" (or_null e.user_id) (
            field "organization_id" (or_null e.organization_id) (
              field "tenant_scope" (str e.tenant_scope) (
                field "action" (str e.action) (
                  field "resource" (or_null e.resource) (
                    field "decision" (or_null e.decision) (
                      field "reason" e.reason (
                        field "trace_id" (str e.trace_id)
                          (field "context" (obj e.context) end))))))))))))

-- Whether the event loop runs, stands, or cannot be had.
pub data Loop : Type 0 where
  running stopped missing : Loop

-- What becomes of an event: written to the stream, or a line is printed with its id.
pub data Fate : Type 0 where
  published : Fate
  logged : Json → Fate

-- What `fire_audit` does with an event: a task is created, which the event loop runs later, or a line is
-- printed with the event's id.
pub data Fired (S : Type 0) : Type 0 where
  scheduled : Exec S Fate → Fired S
  dropped : Json → Fired S

module _ {S : Type 0} (out : Outside S) where
  unfoldable pub signing_key : String
  signing_key = out.digest ("omnibioai-audit-events" ^^ ":" ^^ out.secret)

  unfoldable pub signing_message : String → String → String
  signing_message service text = "v1" ^^ "\n" ^^ service ^^ "\n" ^^ text

  -- none is the ValueError of an empty service
  unfoldable pub sign_audit_event : String → String → Option String
  unfolding signing_key signing_message
  sign_audit_event service text =
      if service == ""
      then none
      else some ("v1" ^^ ":" ^^ out.hmac_hex signing_key (signing_message service text))

  abbrev pub add_signature : Option String → Dict String → Option (Dict String)
  add_signature none d = none
  add_signature (some sig) d = some (insert "sig" sig d)

  abbrev pub service_text : Json → String
  service_text (str s) = s
  service_text v = out.print v

  -- The fields of the stream entry: the same text is signed and sent.
  unfoldable pub stream_fields : Fields → Option (Dict String)
  unfolding sign_audit_event
  stream_fields event =
      let text = out.dumps (obj event) in
      let service = get "service" event in
      let fields = ("data", text) ∷ [] in
      if truthy service
      then add_signature (sign_audit_event (service_text service) text) fields
      else some fields

  unfoldable pub emit : Fields → Exec S Fate
  unfolding stream_fields
  emit event =
      catch
        (or_raise (stream_fields event) >>= λ fields.
          out.xadd "audit:events" fields 1000000 >> pure published)
        (pure (logged (get "event_id" event)))

  unfoldable pub fire_audit : Loop → Fields → Fired S
  unfolding emit
  fire_audit running event = scheduled (emit event)
  fire_audit stopped event = dropped (get "event_id" event)
  fire_audit missing event = dropped (get "event_id" event)
