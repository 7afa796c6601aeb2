-- ===== src/Mcp/Examples.antt =====
-- The MCP endpoint with one API key.
use omnibioai_api_gateway.Prelude.{ℕ, refl, ◌⊎◌, inr, String, false, none, some, List, [], ◌∷◌}
use omnibioai_api_gateway.Json.{Json, str, obj, field, end}
use omnibioai_api_gateway.Prelude.Int.{pos}
use omnibioai_api_gateway.Upstream.{Call}
use omnibioai_api_gateway.Iam.{Outside, answered}
use omnibioai_api_gateway.Mcp.{Scope, call}
use omnibioai_api_gateway.Mcp.Gate.{IsRefused, IsPassed, call-IsGated}
use omnibioai_api_gateway.Mcp.Tools.{
  IsOwn, question_body, answer_with_citations, search_literature, list_domains, tools-IsOwn,
}

-- No cache, and an exchange that answers every key.
abbrev iam : Outside (Unit {0})
iam = record {
  cache = record {
    get = λ k s. (none, s);
    setex = λ k ttl v s. (none, s);
    delete = λ k s. (none, s);
  };
  mac = λ t. "";
  sha256 = λ t. "";
  dumps = λ j. "";
  loads = λ t. none;
  decode_token = λ t. false;
  post = λ n p. answered 200 (
      some (
        obj (
          field "user_id" (str "u1") (
            field "organization_id" (str "o1")
              (field "api_key_id" (str "k1") (field "access_token" (str "jwt") end))))));
  print = λ j. "";
  parse_int = λ t. none;
  base_url = "";
  exchange_secret = "s";
  api_key_cache_ttl = pos 60;
}

abbrev scope : Scope
scope = record {
  kind = "http";
  path = "/mcp/";
  root_path = "/_svc/gateway/mcp";
  headers = ("authorization", "Bearer omni_sk_1") ∷ [];
}

call-IsGated_example :
    IsRefused iam none scope tt (λ app. call iam app none scope tt)
    ⊎ IsPassed iam none scope tt (λ app. call iam app none scope tt)
call-IsGated_example = call-IsGated iam none scope tt refl

abbrev send : List Call → Call → String ⊎ (ℕ × Json)
send before c = inr (200, obj (field "url" (str c.url) end))

tools-IsOwn_example :
    IsOwn send "http://self" "/v1/literature/answers" "POST"
      (question_body send "http://self" "q" "d")
      (some "omni_sk_1")
      []
      (answer_with_citations send "http://self" "q" "d" (some "omni_sk_1") [])
    × IsOwn send "http://self" "/v1/literature/search" "POST"
        (question_body send "http://self" "q" "d")
        (some "omni_sk_1")
        []
        (search_literature send "http://self" "q" "d" (some "omni_sk_1") [])
    × IsOwn send "http://self" "/v1/literature/domains" "GET" none
        (some "omni_sk_1")
        []
        (list_domains send "http://self" (some "omni_sk_1") [])
tools-IsOwn_example = tools-IsOwn send "http://self" "q" "d" (some "omni_sk_1") []
