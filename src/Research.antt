-- ===== src/Research.antt =====
-- app/routes/research_inquiries.py: the public form for research inquiries, relayed to the auth service.
pub mod Relay
pub mod Answers
pub mod Public
mod Examples
use Prim.Native.Char.{code}
use Prim.Native.String
use omnibioai_api_gateway.Prelude.{
  ℕ, zero, suc, ◌+◌, ◌-◌, ◌*◌, String, Bool, true, false, Option, none, some, List, [], ◌∷◌, ◌++◌,
  ◌==◌, not, ◌&&◌, ◌||◌, if◌then◌else◌, eqb, leb, ltb, any, length,
}
use omnibioai_api_gateway.Json.{
  Json, Fields, null, bool, int, float, str, arr, obj, field, end, find, get,
}
use omnibioai_api_gateway.Dict.{Dict, insert}
use omnibioai_api_gateway.Text.{lower, begins_with, ◌^^◌}

abbrev pub max_request_bytes : ℕ
max_request_bytes = 16384

abbrev pub safe_response_headers : List String
safe_response_headers =
    "content-type" ∷ "cache-control" ∷ "retry-after" ∷ "access-control-allow-origin"
    ∷ "access-control-allow-methods" ∷ "access-control-allow-headers" ∷ "vary" ∷ []

-- A request: the host of `request.client` or "", the chunks of the body as bytes, `request.headers.get`,
-- and the trace id of `request.state` or "".
pub record Inquiry : Type 0 where
  pub method : String
  pub peer : String
  pub header : String → Option String
  pub chunks : List (List ℕ)
  pub trace_id : String

-- The request that goes to the auth service.
pub record Relayed : Type 0 where
  pub method : String
  pub target : String
  pub headers : Dict String
  pub content : List ℕ

-- Its response: `json` is what `upstream.json()` returns, none for a ValueError.
pub record Upstream : Type 0 where
  pub status : ℕ
  pub headers : Dict String
  pub json : Option Json

pub data Content : Type 0 where
  blank : Content
  text : String → Content
  json : Json → Content

-- Header names of a response are in lower case, as Starlette sends them.
pub record Response : Type 0 where
  pub status : ℕ
  pub content : Content
  pub headers : Dict String

-- Config, and what the route calls: `parse_ip` is the text of `ipaddress.ip_address`, none for a
-- ValueError, `is_trusted` whether an address lies in one of the trusted networks, `is_uuid` whether
-- `UUID` takes a text, and `send` the call of httpx, none for an httpx.HTTPError.
pub record Outside : Type 0 where
  pub backend_url : String
  pub parse_ip : String → Option String
  pub is_trusted : String → Bool
  pub is_uuid : String → Bool
  pub send : Relayed → Option Upstream

abbrev no_store : Dict String
no_store = ("cache-control", "no-store") ∷ []

unfoldable pub error_response : ℕ → String → Response
error_response status message = record {
  status = status;
  content = json (obj (field "error" (str message) end));
  headers = no_store;
}

unfoldable pub unavailable : ℕ → Response
unfolding error_response
unavailable status = error_response status "Inquiry service unavailable"

unfoldable pub too_large : Response
unfolding error_response
too_large = error_response 413 "Request is too large"

-- s.isdecimal(), for the characters of Latin-1
abbrev pub is_digit : ℕ → Bool
is_digit c = leb b'0' c && leb c b'9'

unfoldable pub is_decimal : String → Bool
is_decimal String.[] = true
is_decimal (String.◌∷◌ c s) = is_digit (code c) && is_decimal s

unfoldable pub decimal_from : ℕ → String → ℕ
decimal_from n String.[] = n
decimal_from n (String.◌∷◌ c s) = decimal_from (10 * n + (code c - b'0')) s

abbrev pub text_length : String → ℕ
text_length String.[] = 0
text_length (String.◌∷◌ c s) = suc (text_length s)

-- What a Content-Length says: `int()` raises ValueError for more than 4300 digits.
pub data Declared : Type 0 where
  acceptable excessive unreadable : Declared

unfoldable pub declared_size : Option String → Declared
unfolding is_decimal decimal_from
declared_size none = acceptable
declared_size (some s) =
    if s == ""
    then acceptable
    else if not (is_decimal s)
    then excessive
    else if ltb 4300 (text_length s)
    then unreadable
    else if ltb max_request_bytes (decimal_from 0 s)
    then excessive
    else acceptable

-- async for chunk in request.stream(): none where the body is too large
unfoldable pub read_body : List (List ℕ) → List ℕ → Option (List ℕ)
read_body [] body = some body
read_body (chunk ∷ chunks) body =
    let rest = read_body chunks (body ++ chunk) in
    if ltb max_request_bytes (length body + length chunk) then none else rest

abbrev pub or_empty : Option String → String
or_empty none = ""
or_empty (some s) = s

abbrev pub or_unknown : Option String → String
or_unknown none = "unknown"
or_unknown (some s) = s

-- if request.headers.get(name): headers[sent] = …
abbrev pub copy_header : String → Option String → Dict String → Dict String
copy_header sent none d = d
copy_header sent (some v) d = if v == "" then d else insert sent v d

module _ (out : Outside) where
  unfoldable pub client_ip : Inquiry → String
  client_ip req = elim (out.parse_ip req.peer) [
    | none ↦ "unknown"
    | some peer ↦
        if out.is_trusted peer
        then or_unknown (out.parse_ip (or_empty (req.header "CF-Connecting-IP")))
        else peer
  ]

  unfoldable pub base_headers : Inquiry → Dict String
  unfolding client_ip
  base_headers req =
      ("Accept", "application/json")
      ∷ ("Origin", or_empty (req.header "origin"))
      ∷ ("CF-Connecting-IP", client_ip req)
      ∷ ("X-Trace-ID", req.trace_id)
      ∷ []

  unfoldable pub preflight_headers : Inquiry → Dict String → Dict String
  preflight_headers req d =
      if req.method == "OPTIONS"
      then copy_header "access-control-request-headers"
          (req.header "access-control-request-headers")
          (copy_header "access-control-request-method" (req.header "access-control-request-method")
            d)
      else d

  unfoldable pub relayed_headers : Inquiry → Dict String
  unfolding base_headers preflight_headers
  relayed_headers req =
      preflight_headers req
        (copy_header "Content-Type" (req.header "content-type") (base_headers req))

  -- What becomes of the request: refused, relayed, or an exception.
  pub data Received : Type 0 where
    refused : Response → Received
    relayed : Relayed → Received
    raised : Received

  unfoldable pub relay : Inquiry → Option (List ℕ) → Received
  unfolding too_large relayed_headers
  relay req none = refused too_large
  relay req (some body) = relayed (record {
    method = req.method;
    target = out.backend_url ^^ "/api/v1/research-inquiries";
    headers = relayed_headers req;
    content = body;
  })

  unfoldable pub receive_declared : Inquiry → Declared → Received
  unfolding relay read_body
  receive_declared req acceptable = relay req (read_body req.chunks [])
  receive_declared req excessive = refused too_large
  receive_declared req unreadable = raised

  unfoldable pub receive : Inquiry → Received
  unfolding receive_declared unavailable declared_size
  receive req =
      if out.backend_url == ""
      then refused (unavailable 503)
      else receive_declared req (declared_size (req.header "content-length"))
