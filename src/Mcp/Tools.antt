-- ===== src/Mcp/Tools.antt =====
-- The tools of app/services/mcp_server.py: calls of the gateway's own routes with the caller's key.
use omnibioai_api_gateway.Prelude.{
  ap, eq_iff, ℕ, ◌≡◌, refl, ◌⊎◌, inl, inr, String, true, false, Option, none, some, List, [], ◌∷◌,
  ◌++◌, ◌==◌, if◌then◌else◌, Bool-cases,
}
use omnibioai_api_gateway.Json.{Json, str, obj, field, end}
use omnibioai_api_gateway.Text.{◌^^◌}
use omnibioai_api_gateway.Upstream.{Call, forward}
use omnibioai_api_gateway.V1Store.{is_success}

-- What a tool returns: a result, or MCPToolCallError without its wording.
pub data Called : Type 0 where
  no_key : Called
  api_error : ℕ → Called
  result : Json → Called

abbrev pub checked_status : ℕ × Json → Called
checked_status (status, response) = if is_success status then result response else api_error status

-- `send` is the client of `proxy.forward`, by the calls made before; `self_url` is Config.SELF_BASE_URL. A tool
-- takes the calls that were made, and gives them back with its own.
module _ (send : List Call → Call → String ⊎ (ℕ × Json)) (self_url : String) where
  abbrev pub own_call : String → String → Option Json → String → Call
  own_call path method body token = record {
    url = self_url ^^ path;
    method = method;
    headers = ("Authorization", "Bearer " ^^ token) ∷ [];
    body = body;
  }

  unfoldable pub call_self :
      String → String → Option Json → Option String → List Call → Called × List Call
  unfolding forward
  call_self path method body none calls = (no_key, calls)
  call_self path method body (some token) calls =
      let call = own_call path method body token in
      if token == ""
      then (no_key, calls)
      else (checked_status (forward (send calls) call), calls ++ call ∷ [])

  abbrev pub question_body : String → String → Option Json
  question_body question domain =
      some (obj (field "question" (str question) (field "domain" (str domain) end)))

  unfoldable pub answer_with_citations :
      String → String → Option String → List Call → Called × List Call
  unfolding call_self
  answer_with_citations question domain =
      call_self "/v1/literature/answers" "POST" (question_body question domain)

  unfoldable pub search_literature :
      String → String → Option String → List Call → Called × List Call
  unfolding call_self
  search_literature question domain =
      call_self "/v1/literature/search" "POST" (question_body question domain)

  unfoldable pub list_domains : Option String → List Call → Called × List Call
  unfolding call_self
  list_domains = call_self "/v1/literature/domains" "GET" none

  -- The one call that a tool makes, and what it returns by the answer.
  module _ (path method : String) (body : Option Json) (key : Option String)
      (calls : List Call) where
    -- The key is `token`, and one call was made, with it.
    abbrev Made : String → List Call → Type 0
    Made token after =
        (key ≡ some token)
        × ((token == "") ≡ false)
        × (after ≡ calls ++ own_call path method body token ∷ [])

    abbrev pub IsOwn : Called × List Call → Type 0
    IsOwn (no_key, after) = ((key ≡ none) ⊎ (key ≡ some "")) × (after ≡ calls)
    IsOwn (api_error status, after) =
        (token : String) × Made token after
        × (is_success status ≡ false)
        × ((forward (send calls) (own_call path method body token)).0 ≡ status)
    IsOwn (result r, after) =
        (token : String) × Made token after
        × (status : ℕ) × (send calls (own_call path method body token) ≡ inr (status, r))
        × (is_success status ≡ true)

    checked_status-IsOwn :
        (token : String) (answer : String ⊎ (ℕ × Json)) (after : List Call)
        → Made token after
        → send calls (own_call path method body token) ≡ answer
        → IsOwn (checked_status (forward (send calls) (own_call path method body token)), after)
    unfolding forward
    checked_status-IsOwn token (inl detail) after made e =
        rw (forward, e) (token, made, refl, rw (forward, e))
    checked_status-IsOwn token (inr (status, r)) after made e =
        elim (Bool-cases (is_success status)) [
          | inl good ↦ rw (forward, e, good) (token, made, status, e, good)
          | inr bad ↦ rw (forward, e, bad) (token, made, bad, rw (forward, e))
        ]

  call_self-IsOwn :
      (path method : String) (body : Option Json) (key : Option String) (calls : List Call)
      → IsOwn path method body key calls (call_self path method body key calls)
  unfolding call_self
  call_self-IsOwn path method body none calls = (inl refl, refl)
  call_self-IsOwn path method body (some token) calls = elim (Bool-cases (token == "")) [
    | inl empty ↦ rw empty (inr (ap some ((eq_iff token "").0 empty)), refl)
    | inr given ↦ rw given (
        checked_status-IsOwn path method body (some token) calls token
          (send calls (own_call path method body token))
          (calls ++ own_call path method body token ∷ []) (refl, given, refl) refl)
  ]

  -- Each of the three tools makes exactly one call, to its own route of this gateway and with the caller's key as
  -- bearer token. It returns a result only where the call was answered with this result and a status from 200
  -- to 299, and an error with the call's status otherwise; without a key it makes none.
  pub tools-IsOwn :
      (question domain : String) (key : Option String) (calls : List Call)
      → IsOwn "/v1/literature/answers" "POST"
          (question_body question domain)
          key
          calls
          (answer_with_citations question domain key calls)
        × IsOwn "/v1/literature/search" "POST"
            (question_body question domain)
            key
            calls
            (search_literature question domain key calls)
        × IsOwn "/v1/literature/domains" "GET" none key calls (list_domains key calls)
  unfolding answer_with_citations search_literature list_domains
  tools-IsOwn question domain key calls = (
    call_self-IsOwn "/v1/literature/answers" "POST" (question_body question domain) key calls,
    call_self-IsOwn "/v1/literature/search" "POST" (question_body question domain) key calls,
    call_self-IsOwn "/v1/literature/domains" "GET" none key calls,
  )
