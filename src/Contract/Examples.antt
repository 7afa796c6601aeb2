-- ===== src/Contract/Examples.antt =====
-- Concrete bodies of /v1/literature/answers.
use omnibioai_api_gateway.Prelude.{◌≡◌, true, arith}
use omnibioai_api_gateway.Prelude.Int.{pos}
use omnibioai_api_gateway.Json.{Fields, float, finite, infinity, str, bool, int, obj, field, end}
use omnibioai_api_gateway.Contract.{top, top_k_of, build_rag_query, answer_query}
use omnibioai_api_gateway.Contract.Requests.{
  IsAnswered, build_rag_query-IsAnswered, fractional_limit,
}

abbrev body : Fields
body = field "question" (str "What binds TP53?") (
    field "model" (str "claude")
      (field "use_own_key" (bool true) (field "max_citations" (int (pos 5)) end)))

build_rag_query-IsAnswered_example : IsAnswered body (build_rag_query (obj body))
build_rag_query-IsAnswered_example = build_rag_query-IsAnswered body

abbrev told_query : Fields
told_query = answer_query body (field "top_k" (int (pos 5)) end)

fractional_limit_example : top_k_of (float (finite (pos 1) 1)) ≡ top 0
fractional_limit_example = fractional_limit 0 1 (omega arith)

abbrev endless : Fields
endless = field "question" (str "What binds TP53?") (field "max_citations" (float infinity) end)
