-- ===== src/AuditClient/Examples.antt =====
-- An audit event on a stream that keeps its entries.
use omnibioai_api_gateway.Prelude.{String, none, some, List, ◌∷◌}
use omnibioai_api_gateway.Json.{null, end}
use omnibioai_api_gateway.Dict.{Dict}
use omnibioai_api_gateway.Http.{AuditEvent}
use omnibioai_api_gateway.AuditClient.{Outside, build_audit_event, running, fire_audit}
use omnibioai_api_gateway.AuditClient.Signed.{IsFired, fire_audit-IsFired}

abbrev out : Outside (List (Dict String))
out = record {
  xadd = λ stream fields maxlen s. (some tt, fields ∷ s);
  dumps = λ j. "{}";
  digest = λ t. t;
  hmac_hex = λ k t. "00";
  print = λ j. "";
  secret = "dev-secret";
}

abbrev denied : AuditEvent
denied = record {
  event_type = "auth_failed";
  action = "GET /rag/x";
  user_id = none;
  organization_id = none;
  tenant_scope = "unknown";
  resource = none;
  decision = some "deny";
  reason = null;
  trace_id = "t-1";
  context = end;
}

fire_audit-IsFired_example :
    IsFired out "e1" "now" denied running
      (fire_audit out running (build_audit_event "e1" "now" "gateway" denied))
fire_audit-IsFired_example = fire_audit-IsFired out "e1" "now" denied running
