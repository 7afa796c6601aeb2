-- ===== src/Research/Answers.antt =====
-- app/routes/research_inquiries.py: what the route makes of the auth service's response.
use omnibioai_api_gateway.Prelude.{
  ℕ, String, Bool, true, false, Option, none, some, List, [], ◌∷◌, ◌==◌, not, ◌&&◌, ◌||◌,
  if◌then◌else◌, eqb, leb, any,
}
use omnibioai_api_gateway.Json.{Json, Fields, null, str, obj, field, end, find, get}
use omnibioai_api_gateway.Dict.{Dict, insert}
use omnibioai_api_gateway.Text.{lower, begins_with}
use omnibioai_api_gateway.Research.{
  safe_response_headers, Inquiry, Upstream, blank, text, json, Response, Outside, unavailable,
  or_empty, Received, refused, relayed, raised, receive,
}

unfoldable pub is_safe_header : String → Bool
unfolding lower
is_safe_header name = any (λ h. lower name == h) safe_response_headers

-- {name: value for name, value in upstream.headers.items() if …}
unfoldable pub safe_headers : Dict String → Dict String
unfolding is_safe_header
safe_headers [] = []
safe_headers ((k, v) ∷ hs) =
    let rest = safe_headers hs in if is_safe_header k then (k, v) ∷ rest else rest

unfoldable pub response_headers : Dict String → Dict String
unfolding safe_headers
response_headers hs = insert "cache-control" "no-store" (safe_headers hs)

-- upstream.headers.get(name), whatever the case of the name
unfoldable pub header_of : String → Dict String → Option String
unfolding lower
header_of name [] = none
header_of name ((k, v) ∷ hs) =
    let rest = header_of name hs in if lower k == name then some v else rest

-- part in s
unfoldable pub contains : String → String → Bool
unfolding begins_with
contains part String.[] = part == ""
contains part (String.◌∷◌ c s) = begins_with (String.◌∷◌ c s) part || contains part s

abbrev pub with_found : String → Option Json → Fields → Fields
with_found k none rest = rest
with_found k (some v) rest = field k v rest

-- {key: data[key] for key in keys if key in data}
unfoldable pub pick : List String → Fields → Fields
pick [] fs = end
pick (k ∷ ks) fs = with_found k (find k fs) (pick ks fs)

abbrev pub is_member : ℕ → List ℕ → Bool
is_member n ns = any (λ m. eqb n m) ns

abbrev pub public_statuses : List ℕ
public_statuses = 201 ∷ 204 ∷ 400 ∷ 403 ∷ 409 ∷ 413 ∷ 415 ∷ 422 ∷ 429 ∷ []

abbrev pub is_text : Json → Bool
is_text (str s) = true
is_text _ = false

-- The checks of a 201: `good`, `bad` where an exception is raised that the handler catches, and `crash`
-- where `UUID` raises AttributeError for a value that is neither text nor None.
pub data Checked : Type 0 where
  good bad crash : Checked

abbrev pub received_status : Fields → Checked
received_status fs = elim (get "status" fs) [
  | str s ↦ if (s == "received") && is_text (get "submitted_at" fs) then good else bad
  | _ ↦ bad
]

module _ (out : Outside) where
  unfoldable pub check_created : Option Json → Fields → Checked
  check_created none fs = bad
  check_created (some null) fs = bad
  check_created (some (str s)) fs = if out.is_uuid s then received_status fs else bad
  check_created (some _) fs = crash

  -- An answer, or none for an exception that leaves the route.
  unfoldable pub created : Checked → Fields → Dict String → Option Response
  unfolding unavailable pick
  created good fs hs = some (record {
    status = 201;
    content = json (obj (pick ("status" ∷ "inquiry_id" ∷ "submitted_at" ∷ []) fs));
    headers = hs;
  })
  created bad fs hs = some (unavailable 502)
  created crash fs hs = none

  unfoldable pub answer_fields : ℕ → Option Json → Dict String → Option Response
  unfolding created check_created unavailable pick
  answer_fields status (some (obj fs)) hs =
      if eqb status 201
      then created (check_created (find "inquiry_id" fs) fs) fs hs
      else some (record {
        status = status;
        content = json (obj (pick ("error" ∷ "field_errors" ∷ []) fs));
        headers = hs;
      })
  answer_fields status _ hs = some (unavailable 502)

  unfoldable pub answer_post : Upstream → Dict String → Option Response
  unfolding answer_fields unavailable contains header_of
  answer_post upstream hs =
      if leb 500 upstream.status || not (is_member upstream.status public_statuses)
      then some (unavailable 503)
      else if not
            (contains "application/json" (or_empty (header_of "content-type" upstream.headers)))
          && not (eqb upstream.status 204)
      then some (unavailable 502)
      else if eqb upstream.status 204
      then some (record { status = 204; content = blank; headers = hs })
      else answer_fields upstream.status upstream.json hs

  unfoldable pub answer_options : Upstream → Dict String → Response
  unfolding unavailable
  answer_options upstream hs =
      if not (is_member upstream.status (200 ∷ 400 ∷ [])) then unavailable 503 else record {
        status = upstream.status;
        content = text (if eqb upstream.status 200 then "OK" else "CORS preflight denied");
        headers = hs;
      }

  unfoldable pub answer : Inquiry → Option Upstream → Option Response
  unfolding response_headers answer_options answer_post unavailable
  answer req none = some (unavailable 503)
  answer req (some upstream) =
      let hs = response_headers upstream.headers in
      if req.method == "OPTIONS" then some (answer_options upstream hs) else answer_post upstream hs

  unfoldable pub answer_received : Inquiry → Received out → Option Response
  unfolding answer
  answer_received req (refused r) = some r
  answer_received req (relayed q) = answer req (out.send q)
  answer_received req raised = none

  -- The route; none for an exception that leaves it.
  unfoldable pub research_inquiries : Inquiry → Option Response
  unfolding answer_received receive
  research_inquiries req = answer_received req (receive out req)
