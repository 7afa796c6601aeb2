-- ===== src/Contract.antt =====
-- app/services/literature_contract.py: between the public bodies of /v1/literature/* and those of
-- the service behind them. The wording of messages is left out.
pub mod Requests
pub mod Responses
mod Examples
use Prim.Native.Nat.{◌^◌}
use omnibioai_api_gateway.Prelude.{
  ℕ, zero, suc, ◌/◌, String, Bool, true, false, not, ◌&&◌, ◌||◌, Option, none, some, ◌==◌,
  if◌then◌else◌, is_some,
}
use omnibioai_api_gateway.Prelude.Int.{ℤ, pos, negsuc}
use omnibioai_api_gateway.Json.{
  Json, Float, Items, Fields, null, bool, int, float, str, arr, obj, nil, cons, end, field, finite,
  infinity, minus_infinity, nan, find, get, get_or, truthy, ◌or◌,
}
use omnibioai_api_gateway.Text.{strip, is_space, ◌^^◌}

-- What a translation of a request gives: the query, an UnsupportedRequestError with its field, or
-- another exception.
pub data Built : Type 0 where
  query : Fields → Built
  unsupported : String → Built
  crashed : Built

-- not isinstance(question, str) or not question.strip()
unfoldable pub is_question : Json → Bool
unfolding strip
is_question (str s) = not (strip is_space s == "")
is_question _ = false

-- model in (None, "", "default")
unfoldable pub is_default_model : Json → Bool
is_default_model null = true
is_default_model (str s) = s == "" || s == "default"
is_default_model _ = false

-- model in ("claude", "openai")
unfoldable pub is_byok_model : Json → Bool
is_byok_model (str s) = s == "claude" || s == "openai"
is_byok_model _ = false

-- How many results a limit asks for: `absent` leaves the query without `top_k`; an infinite one raises
-- OverflowError in `int()`.
pub data TopK : Type 0 where
  absent overflow : TopK
  top : ℕ → TopK

unfoldable pub top_k_of : Json → TopK
top_k_of (int (pos (suc n))) = top (suc n)
top_k_of (float (finite (pos (suc m)) k)) = top (suc m / 2 ^ k)
top_k_of (float infinity) = overflow
top_k_of _ = absent

abbrev with_top_k : TopK → (Fields → Fields) → Built
with_top_k absent rest = query (rest end)
with_top_k overflow rest = crashed
with_top_k (top n) rest = query (rest (field "top_k" (int (pos n)) end))

abbrev with_model : Bool → Json → Fields → Fields
with_model true model rest = field "model" model rest
with_model false model rest = rest

abbrev pub study_of : Fields → Json
study_of body = get "domain" body or str "default"

abbrev answer_query : Fields → Fields → Fields
answer_query body rest = field "query" (get "question" body) (
    field "study" (study_of body)
      (with_model (is_byok_model (get "model" body)) (get "model" body) rest))

unfoldable pub build_rag_query : Json → Built
build_rag_query (obj body) =
    let model = get "model" body in
    let use_own_key = truthy (get "use_own_key" body) in
    if not (is_question (get "question" body))
    then unsupported "question"
    else if not (is_default_model model) && not (is_byok_model model)
    then unsupported "model"
    else if is_byok_model model && not use_own_key
    then unsupported "use_own_key"
    else if use_own_key && not (is_byok_model model)
    then unsupported "model"
    else if truthy (get "stream" body)
    then unsupported "stream"
    else with_top_k (top_k_of (get "max_citations" body)) (answer_query body)
build_rag_query _ = unsupported "body"

abbrev search_query : Fields → Fields → Fields
search_query body rest =
    field "query" (get "question" body)
      (field "study" (study_of body) (field "mode" (str "search") rest))

unfoldable pub build_rag_search_query : Json → Built
build_rag_search_query (obj body) =
    if not (is_question (get "question" body))
    then unsupported "question"
    else with_top_k (top_k_of (get "max_results" body)) (search_query body)
build_rag_search_query _ = unsupported "body"

-- One document, as a citation or, with `snippet`, as a result; a document that is no object raises.
abbrev document_fields : Fields → Fields → Fields
document_fields doc rest = field "pmid" (get "pmid" doc) (
    field "title" (get "title" doc) (
      field "year" (get "year" doc)
        (field "score" (get_or "citation_confidence" (get "similarity_score" doc) doc) rest)))

abbrev citation_of : Fields → Json
citation_of doc = obj (document_fields doc end)

abbrev result_of : Fields → Json
result_of doc = obj (document_fields doc (field "snippet" (get "abstract" doc) end))

abbrev cons_some : Json → Option Items → Option Items
cons_some j none = none
cons_some j (some l) = some (cons j l)

-- [f(doc) for doc in documents]
unfoldable pub documents_of : (Fields → Json) → Items → Option Items
documents_of f nil = some nil
documents_of f (cons (obj doc) l) = cons_some (f doc) (documents_of f l)
documents_of f (cons _ l) = none

-- rag_result.get("documents") or [], where a value that is no list raises (a non-empty string or object
-- has parts that are no objects).
abbrev documents_in : (Fields → Json) → Fields → Option Items
documents_in f result = elim (get "documents" result or arr nil) [
  | arr l ↦ documents_of f l
  | _ ↦ none
]

-- rag_result.get("summary") or {}
abbrev summary_of : Fields → Option Fields
summary_of result = elim (get "summary" result or obj end) [ obj fs ↦ some fs | _ ↦ none ]

-- f"{prefix}{request_id or uuid4().hex}"
abbrev id_of : String → String → String → Json
id_of prefix request_id uuid = str (prefix ^^ (if request_id == "" then uuid else request_id))

abbrev canned_answer : String
canned_answer =
    "This is a canned test-mode response. No literature service was called, and this request was not billed."

module _ (uuid : String) where
  abbrev search_with : Fields → Json → String → ℕ → Option Items → Option Fields
  search_with result domain request_id latency_ms none = none
  search_with result domain request_id latency_ms (some l) = some (
      field "id" (id_of "srch_" request_id uuid) (
        field "results" (arr l) (
          field "domain" (get_or "study" domain result) (
            field "usage"
              (obj (field "searches" (int (pos 1)) (field "latency_ms" (int (pos latency_ms)) end)))
              end))))

  unfoldable pub build_public_search : Fields → Json → String → ℕ → Option Fields
  unfolding documents_of
  build_public_search result domain request_id latency_ms =
      search_with result domain request_id latency_ms (documents_in result_of result)

  answer_fields : Fields → Fields → Items → Json → String → ℕ → Fields
  answer_fields result summary citations domain request_id latency_ms =
      field "id" (id_of "ans_" request_id uuid) (
        field "answer" (get_or "text" (str "") summary) (
          field "citations" (arr citations) (
            field "model" (get "model" summary) (
              field "model_source" (get_or "model_source" (str "omnibioai_gpu") summary) (
                field "domain" (get_or "study" domain result) (
                  field "usage"
                    (obj (
                      field "queries" (int (pos 1)) (
                        field "input_tokens" (get "input_tokens" summary) (
                          field "output_tokens" (get "output_tokens" summary) (
                            field "billed_by" (str "query")
                              (field "latency_ms" (int (pos latency_ms)) end))))))
                    end))))))

  answer_with : Fields → Json → String → ℕ → Option Fields → Option Items → Option Fields
  unfolding answer_fields
  answer_with result domain request_id latency_ms none documents = none
  answer_with result domain request_id latency_ms (some summary) none = none
  answer_with result domain request_id latency_ms (some summary) (some l) =
      some (answer_fields result summary l domain request_id latency_ms)

  unfoldable pub build_public_answer : Fields → Json → String → ℕ → Option Fields
  unfolding documents_of answer_with
  build_public_answer result domain request_id latency_ms =
      answer_with result domain request_id latency_ms (summary_of result)
        (documents_in citation_of result)

  unfoldable pub build_test_answer : Json → String → ℕ → Fields
  build_test_answer domain request_id latency_ms = field "id" (id_of "ans_test_" request_id uuid) (
      field "answer" (str canned_answer) (
        field "citations" (arr nil) (
          field "model" (str "test") (
            field "model_source" (str "test") (
              field "domain" (domain or str "default") (
                field "usage"
                  (obj (
                    field "queries" (int (pos 0)) (
                      field "input_tokens" null (
                        field "output_tokens" null (
                          field "billed_by" (str "query")
                            (field "latency_ms" (int (pos latency_ms)) end))))))
                  end))))))

  unfoldable pub build_test_search : Json → String → ℕ → Fields
  build_test_search domain request_id latency_ms = field "id" (id_of "srch_test_" request_id uuid) (
      field "results" (arr nil) (
        field "domain" (domain or str "default") (
          field "usage"
            (obj (field "searches" (int (pos 0)) (field "latency_ms" (int (pos latency_ms)) end)))
            end)))
