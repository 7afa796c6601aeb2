-- ===== src/Contract/Requests.antt =====
-- Which request bodies the public contract accepts, and what it asks of the service for them.
use Prim.Native.Nat.{◌^◌}
use native.Mathlib.Nat.{div-eq_of_lt}
use omnibioai_api_gateway.Prelude.{
  ℕ, zero, suc, ◌<◌, ◌≡◌, ◌≢◌, refl, ap, sym, ◌∙◌, String, ◌⊎◌, inl, inr, true, false, arith,
  Bool-cases, none, some, ◌==◌, eq_iff, if◌then◌else◌,
}
use omnibioai_api_gateway.Prelude.Int.{pos, negsuc}
use omnibioai_api_gateway.Json.{
  null, int, float, finite, infinity, Json, Fields, get, find, truthy, obj, str, field, end,
}
use omnibioai_api_gateway.Contract.{
  Built, query, unsupported, crashed, is_question, is_default_model, is_byok_model, TopK, absent,
  overflow, top, top_k_of, build_rag_query, with_top_k, answer_query, study_of,
}

-- A body that the gateway can honor: a question, no stream, and an own key exactly with a
-- model that wants one.
pub record IsHonored (body : Fields) : Type 0 where
  pub question : is_question (get "question" body) ≡ true
  pub model :
      (is_default_model (get "model" body) ≡ true) × (truthy (get "use_own_key" body) ≡ false)
      ⊎ (is_byok_model (get "model" body) ≡ true) × (truthy (get "use_own_key" body) ≡ true)
  pub no_stream : truthy (get "stream" body) ≡ false
  pub finite_limit : top_k_of (get "max_citations" body) ≢ overflow

IsHonored-of_query : (body q : Fields) → build_rag_query (obj body) ≡ query q → IsHonored body
unfolding build_rag_query
IsHonored-of_query body q h = record {
  question = ground arith;
  model = ground arith;
  no_stream = ground arith;
  finite_limit = λ e. ground arith;
}

default_not_byok : (j : Json) → is_default_model j ≡ true → is_byok_model j ≡ false
unfolding is_default_model is_byok_model
default_not_byok null h = refl
default_not_byok (str s) h = elim (Bool-cases (s == "")) [
  | inl blank ↦ rw ((eq_iff s "").0 blank) refl
  | inr other ↦ rw ((eq_iff s "default").0 (rw other at h)) refl
]
default_not_byok _ h = cc

query_of_top_k :
    (t : TopK) (rest : Fields → Fields)
    → t ≢ overflow
    → (q : Fields) × (with_top_k t rest ≡ query q)
query_of_top_k absent rest h = (rest end, refl)
query_of_top_k overflow rest h = absurd (h refl)
query_of_top_k (top n) rest h = (rest (field "top_k" (int (pos n)) end), refl)

query_of_honored :
    (body : Fields) → IsHonored body → (q : Fields) × (build_rag_query (obj body) ≡ query q)
unfolding build_rag_query
query_of_honored body h =
    let (q, built) =
      query_of_top_k (top_k_of (get "max_citations" body)) (answer_query body) h.finite_limit in
    elim h.model [
      | inl (d, k) ↦
          (q, rw (h.question, d, k, default_not_byok (get "model" body) d, h.no_stream) built)
      | inr (b, k) ↦ (q, rw (h.question, b, k, h.no_stream) (ground arith))
    ]

-- What the service is told of an accepted body.
pub record Tells (body q : Fields) : Type 0 where
  pub question : find "query" q ≡ some (get "question" body)
  pub study : find "study" q ≡ some (study_of body)
  pub model :
      find "model" q ≡ (if is_byok_model (get "model" body) then some (get "model" body) else none)
  pub no_key : find "provider_api_key" q ≡ none
  pub limit :
      find "top_k" q
      ≡ (elim (top_k_of (get "max_citations" body)) [ top n ↦ some (int (pos n)) | _ ↦ none ])

abbrev fields_of : Built → Fields
fields_of (query q) = q
fields_of _ = end

answer_query-Tells :
    (body rest : Fields)
    → find "model" rest ≡ none
    → find "provider_api_key" rest ≡ none
    → find "top_k" rest
      ≡ (elim (top_k_of (get "max_citations" body)) [ top n ↦ some (int (pos n)) | _ ↦ none ])
    → Tells body (answer_query body rest)
answer_query-Tells body rest m k t = elim (Bool-cases (is_byok_model (get "model" body))) [
  | inl own ↦
      rw own (record { question = refl; study = refl; model = rw own; no_key = k; limit = t })
  | inr default ↦
      rw default
        (record { question = refl; study = refl; model = rw default m; no_key = k; limit = t })
]

told :
    (body q : Fields) (t : TopK)
    → top_k_of (get "max_citations" body) ≡ t
    → with_top_k t (answer_query body) ≡ query q
    → Tells body q
told body q absent e h = rw (← ap fields_of h) (answer_query-Tells body end refl refl (rw e))
told body q overflow e h = cc
told body q (top n) e h =
    rw (← ap fields_of h)
      (answer_query-Tells body (field "top_k" (int (pos n)) end) refl refl (rw e))

-- The query for an accepted body has its question, its domain or "default", the model exactly if it is one
-- of the caller's own key, the limit that it asks for, and no provider key.
pub build_rag_query-Tells : (body q : Fields) → build_rag_query (obj body) ≡ query q → Tells body q
unfolding build_rag_query
build_rag_query-Tells body q h =
    told body q (top_k_of (get "max_citations" body)) refl (ground arith)

-- What a body asks for apart from its limit.
abbrev IsSupported : Fields → Type 0
IsSupported body =
    (is_question (get "question" body) ≡ true)
    × ((is_default_model (get "model" body) ≡ true) × (truthy (get "use_own_key" body) ≡ false)
        ⊎ (is_byok_model (get "model" body) ≡ true) × (truthy (get "use_own_key" body) ≡ true))
    × (truthy (get "stream" body) ≡ false)

supported_built :
    (body : Fields)
    → IsSupported body
    → build_rag_query (obj body)
      ≡ with_top_k (top_k_of (get "max_citations" body)) (answer_query body)
unfolding build_rag_query
supported_built body (q, m, st) = elim m [
  | inl (d, k) ↦ rw (q, d, k, default_not_byok (get "model" body) d, st) refl
  | inr (b, k) ↦ rw (q, b, k, st) (ground arith)
]

IsSupported-of_crashed : (body : Fields) → build_rag_query (obj body) ≡ crashed → IsSupported body
unfolding build_rag_query
IsSupported-of_crashed body h = (ground arith, ground arith, ground arith)

with_top_k-supported :
    (t : TopK) (rest : Fields → Fields) (name : String) → with_top_k t rest ≢ unsupported name
with_top_k-supported absent rest name h = cc
with_top_k-supported overflow rest name h = cc
with_top_k-supported (top n) rest name h = cc

with_top_k-crashed :
    (t : TopK) (rest : Fields → Fields) → with_top_k t rest ≡ crashed → t ≡ overflow
with_top_k-crashed absent rest h = cc
with_top_k-crashed overflow rest h = refl
with_top_k-crashed (top n) rest h = cc

overflow-infinity : (j : Json) → top_k_of j ≡ overflow → j ≡ float infinity
unfolding top_k_of
overflow-infinity (float infinity) h = refl
overflow-infinity (int (pos zero)) h = cc
overflow-infinity (int (pos (suc n))) h = cc
overflow-infinity (int (negsuc n)) h = cc
overflow-infinity (float (finite (pos zero) k)) h = cc
overflow-infinity (float (finite (pos (suc m)) k)) h = cc
overflow-infinity (float (finite (negsuc m) k)) h = cc
overflow-infinity _ h = cc

-- The three ends of a translation.
abbrev pub IsAnswered : Fields → Built → Type 0
IsAnswered body (query q) = IsHonored body × Tells body q
IsAnswered body (unsupported name) = ¬ IsSupported body
IsAnswered body crashed = IsSupported body × (get "max_citations" body ≡ float infinity)

-- A body of /v1/literature/answers comes to one of three ends. One that can be honored is turned into a
-- query that has its question, its domain or "default", its model exactly if it is one of the
-- caller's own key, no provider key, and its limit as `int` rounds it, which makes a limit below one 0
-- results. One that asks, apart from its
-- limit, for something that is not supported, and only such a one, gets an error.
-- Where the limit alone is infinite, the translation raises.
pub build_rag_query-IsAnswered : (body : Fields) → IsAnswered body (build_rag_query (obj body))
build_rag_query-IsAnswered body = answered (build_rag_query (obj body)) refl
  where
    answered : (b : Built) → build_rag_query (obj body) ≡ b → IsAnswered body b
    answered (query q) e = (IsHonored-of_query body q e, build_rag_query-Tells body q e)
    answered (unsupported name) e = λ asked.
        with_top_k-supported (top_k_of (get "max_citations" body)) (answer_query body) name
          (sym (supported_built body asked) ∙ e)
    answered crashed e =
        let asked = IsSupported-of_crashed body e in
        (
          asked,
          overflow-infinity (get "max_citations" body) (
              with_top_k-crashed (top_k_of (get "max_citations" body)) (answer_query body)
                (sym (supported_built body asked) ∙ e)),
        )

-- A limit below one is sent on as 0 results, though the code keeps only limits above 0.
pub fractional_limit : (m k : ℕ) → suc m < 2 ^ k → top_k_of (float (finite (pos (suc m)) k)) ≡ top 0
unfolding top_k_of
fractional_limit m k h = ap top (div-eq_of_lt h)

-- An otherwise acceptable body with an infinite limit, which Python's JSON parser reads, gets no
-- error response: the translation raises.
pub infinite_limit_crashes :
    (body : Fields)
    → is_question (get "question" body) ≡ true
    → is_default_model (get "model" body) ≡ true
    → truthy (get "use_own_key" body) ≡ false
    → truthy (get "stream" body) ≡ false
    → get "max_citations" body ≡ float infinity
    → build_rag_query (obj body) ≡ crashed
unfolding build_rag_query top_k_of
infinite_limit_crashes body q d k st e =
    rw (q, d, k, default_not_byok (get "model" body) d, st, e) refl
