-- ===== src/Research/Examples.antt =====
-- The public form on a concrete request.
use omnibioai_api_gateway.Prelude.{◌≡◌, refl, true, false, none, some, [], ◌∷◌, ◌==◌, if◌then◌else◌}
use omnibioai_api_gateway.Json.{str, obj, field, end}
use omnibioai_api_gateway.Research.{Inquiry, Upstream, Outside, receive, client_ip}
use omnibioai_api_gateway.Research.Answers.{research_inquiries}
use omnibioai_api_gateway.Research.Public.{IsPublicOr, research_inquiries-IsPublic}
use omnibioai_api_gateway.Research.Relay.{IsReceived, receive-IsReceived}

abbrev upstream : Upstream
upstream = record {
  status = 400;
  headers = ("content-type", "application/json") ∷ ("set-cookie", "a=b") ∷ [];
  json = some (obj (field "error" (str "no name") (field "trace" (str "auth:12") end)));
}

abbrev out : Outside
out = record {
  backend_url = "http://auth";
  parse_ip = λ s. if s == "10.0.0.1" then some s else none;
  is_trusted = λ p. false;
  is_uuid = λ s. true;
  send = λ q. some upstream;
}

abbrev submission : Inquiry
submission = record {
  method = "POST";
  peer = "10.0.0.1";
  header = λ name. if name == "CF-Connecting-IP" then some "1.2.3.4" else none;
  chunks = (123 ∷ []) ∷ (125 ∷ []) ∷ [];
  trace_id = "t-1";
}

research_inquiries-IsPublic_example : IsPublicOr (research_inquiries out submission)
research_inquiries-IsPublic_example = research_inquiries-IsPublic out submission

receive-IsReceived_example : IsReceived out submission (receive out submission)
receive-IsReceived_example = receive-IsReceived out submission

peer_is_sent : client_ip out submission ≡ "10.0.0.1"
unfolding client_ip
peer_is_sent = refl
