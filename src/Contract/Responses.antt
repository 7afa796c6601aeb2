-- ===== src/Contract/Responses.antt =====
-- What the translations of an answer and of a search have as usage.
use mathlib.Core.Option.{some-injective}
use omnibioai_api_gateway.Prelude.{◌≡◌, ap, sym, Option, none, some, String, ℕ}
use omnibioai_api_gateway.Json.{Json, Items, Fields, obj, end, get, ◌or◌, fields_of}
use omnibioai_api_gateway.Contract.{
  build_public_answer, build_public_search, answer_fields, summary_of, documents_in, citation_of,
  result_of, answer_with, search_with,
}

-- public_response.get("usage") or {}
abbrev pub usage_of : Fields → Option Fields
usage_of public = fields_of (get "usage" public or obj end)

module _ (uuid : String) (result : Fields) (domain : Json) (request_id : String) (latency_ms : ℕ)
    (public : Fields) where
  answer_with-usage :
      (summary : Option Fields) (documents : Option Items)
      → answer_with uuid result domain request_id latency_ms summary documents ≡ some public
      → (usage : Fields) × (usage_of public ≡ some usage)
  unfolding answer_with answer_fields
  answer_with-usage none documents built = cc
  answer_with-usage (some summary) none built = cc
  answer_with-usage (some summary) (some l) built =
      (_, ap usage_of (sym (some-injective _ _ built)))

  pub build_public_answer-usage :
      build_public_answer uuid result domain request_id latency_ms ≡ some public
      → (usage : Fields) × (usage_of public ≡ some usage)
  unfolding build_public_answer
  build_public_answer-usage built =
      answer_with-usage (summary_of result) (documents_in citation_of result) built

  search_with-usage :
      (documents : Option Items)
      → search_with uuid result domain request_id latency_ms documents ≡ some public
      → (usage : Fields) × (usage_of public ≡ some usage)
  search_with-usage none built = cc
  search_with-usage (some l) built = (_, ap usage_of (sym (some-injective _ _ built)))

  pub build_public_search-usage :
      build_public_search uuid result domain request_id latency_ms ≡ some public
      → (usage : Fields) × (usage_of public ≡ some usage)
  unfolding build_public_search
  build_public_search-usage built = search_with-usage (documents_in result_of result) built
