-- ===== src/Research/Public.antt =====
-- What the public form lets out.
use omnibioai_api_gateway.Prelude.{
  ℕ, ◌≡◌, ◌⊎◌, refl, inl, inr, if◌then◌else◌, String, Bool, true, false, Option, none, some, List,
  [], ◌∷◌, ◌==◌, not, ◌&&◌, ◌||◌, eqb, leb, any, arith, All, Bool-cases,
}
use omnibioai_api_gateway.Json.{Json, Fields, obj, field, end, find}
use omnibioai_api_gateway.Dict.{Dict, keys, All-insert, lookup, lookup-insert}
use omnibioai_api_gateway.Research.{
  Inquiry, Upstream, Content, blank, text, json, Response, Outside, error_response, unavailable,
  too_large, declared_size, Declared, acceptable, excessive, unreadable, read_body, relay,
  receive_declared, receive, or_empty,
}
use omnibioai_api_gateway.Research.Answers.{
  is_safe_header, safe_headers, response_headers, header_of, contains, pick, with_found, is_member,
  public_statuses, Checked, good, bad, crash, check_created, created, answer_fields, answer_post,
  answer_options, answer, answer_received, research_inquiries,
}

abbrev names : Fields → List String
names end = []
names (field k v fs) = k ∷ names fs

abbrev pub is_public_key : String → Bool
is_public_key k =
    any (λ n. k == n) ("error" ∷ "field_errors" ∷ "status" ∷ "inquiry_id" ∷ "submitted_at" ∷ [])

-- Nothing, one of the route's two texts, or an object that has public keys only.
abbrev pub IsPublicContent : Content → Type 0
IsPublicContent blank = Unit
IsPublicContent (text s) = (s ≡ "OK") ⊎ (s ≡ "CORS preflight denied")
IsPublicContent (json (obj fs)) = All (λ k. is_public_key k ≡ true) (names fs)
IsPublicContent (json _) = false ≡ true

-- A response with a status of the form's contract, a public content, headers that are safe, and no
-- leave to store it.
pub record IsPublic (r : Response) : Type 0 where
  pub status : is_member r.status (200 ∷ 502 ∷ 503 ∷ public_statuses) ≡ true
  pub content : IsPublicContent r.content
  pub headers : All (λ k. is_safe_header k ≡ true) (keys r.headers)
  pub not_stored : lookup "cache-control" r.headers ≡ some "no-store"

with_found-names :
    (k : String) (o : Option Json) (rest : Fields)
    → is_public_key k ≡ true
    → All (λ k. is_public_key k ≡ true) (names rest)
    → All (λ k. is_public_key k ≡ true) (names (with_found k o rest))
with_found-names k none rest p h = h
with_found-names k (some v) rest p h = (p, h)

pick-names :
    (ks : List String) (fs : Fields)
    → All (λ k. is_public_key k ≡ true) ks
    → All (λ k. is_public_key k ≡ true) (names (pick ks fs))
unfolding pick
pick-names [] fs h = tt
pick-names (k ∷ ks) fs h = with_found-names k (find k fs) (pick ks fs) h.0 (pick-names ks fs h.1)

safe_headers-keys : (hs : Dict String) → All (λ k. is_safe_header k ≡ true) (keys (safe_headers hs))
unfolding safe_headers
safe_headers-keys [] = tt
safe_headers-keys ((k, v) ∷ hs) = elim (Bool-cases (is_safe_header k)) [
  | inl safe ↦ rw safe (safe, safe_headers-keys hs)
  | inr unsafe ↦ rw unsafe (safe_headers-keys hs)
]

abbrev IsClean : Dict String → Type 0
IsClean hs =
    All (λ k. is_safe_header k ≡ true) (keys hs) × (lookup "cache-control" hs ≡ some "no-store")

response_headers-IsClean : (hs : Dict String) → IsClean (response_headers hs)
unfolding response_headers
response_headers-IsClean hs = (
  All-insert (λ k. is_safe_header k ≡ true) "cache-control" "no-store" (safe_headers hs)
      (unfold is_safe_header in refl) (safe_headers-keys hs),
  lookup-insert "cache-control" "cache-control" "no-store" (safe_headers hs),
)

error_response-IsPublic :
    (status : ℕ) (message : String)
    → is_member status (200 ∷ 502 ∷ 503 ∷ public_statuses) ≡ true
    → IsPublic (error_response status message)
unfolding error_response lookup is_safe_header
error_response-IsPublic status message h = record {
  status = h;
  content = (refl, tt);
  headers = (refl, tt);
  not_stored = refl;
}

abbrev pub IsPublicOr : Option Response → Type 0
IsPublicOr none = Unit
IsPublicOr (some r) = IsPublic r

own_text : (b : Bool) → IsPublicContent (text (if b then "OK" else "CORS preflight denied"))
own_text true = inl refl
own_text false = inr refl

passed : (a b : Bool) → (a || not b) ≡ false → b ≡ true
passed true b h = ground (arith, h)
passed false true h = refl
passed false false h = ground (arith, h)

module _ (out : Outside) where
  unavailable-IsPublic :
      (status : ℕ)
      → is_member status (200 ∷ 502 ∷ 503 ∷ public_statuses) ≡ true
      → IsPublic (unavailable status)
  unfolding unavailable
  unavailable-IsPublic status h = error_response-IsPublic status "Inquiry service unavailable" h

  created-IsPublic :
      (c : Checked) (fs : Fields) (hs : Dict String) → IsClean hs → IsPublicOr (created out c fs hs)
  unfolding created
  created-IsPublic good fs hs h = record {
    status = refl;
    content =
        pick-names ("status" ∷ "inquiry_id" ∷ "submitted_at" ∷ []) fs (refl, (refl, (refl, tt)));
    headers = h.0;
    not_stored = h.1;
  }
  created-IsPublic bad fs hs h = unavailable-IsPublic 502 refl
  created-IsPublic crash fs hs h = tt

  answer_fields-IsPublic :
      (status : ℕ) (j : Option Json) (hs : Dict String)
      → is_member status public_statuses ≡ true
      → IsClean hs
      → IsPublicOr (answer_fields out status j hs)
  unfolding answer_fields
  answer_fields-IsPublic status (some (obj fs)) hs m h = elim (Bool-cases (eqb status 201)) [
    | inl new ↦ rw new (created-IsPublic (check_created out (find "inquiry_id" fs) fs) fs hs h)
    | inr other ↦ rw other (record {
      status = rw m (ground arith);
      content = pick-names ("error" ∷ "field_errors" ∷ []) fs (refl, (refl, tt));
      headers = h.0;
      not_stored = h.1;
    })
  ]
  answer_fields-IsPublic status _ hs m h = unavailable-IsPublic 502 refl

  answer_post-IsPublic :
      (u : Upstream) (hs : Dict String) → IsClean hs → IsPublicOr (answer_post out u hs)
  unfolding answer_post
  answer_post-IsPublic u hs h =
      let media =
        not (contains "application/json" (or_empty (header_of "content-type" u.headers))) in
      elim (Bool-cases (leb 500 u.status || not (is_member u.status public_statuses))) [
        | inl hidden ↦ rw hidden (unavailable-IsPublic 503 refl)
        | inr shown ↦ elim (Bool-cases (media && not (eqb u.status 204))) [
          | inl foreign ↦ rw (shown, foreign) (unavailable-IsPublic 502 refl)
          | inr ours ↦ elim (Bool-cases (eqb u.status 204)) [
            | inl empty ↦
                rw (shown, ours, empty)
                  (record { status = refl; content = tt; headers = h.0; not_stored = h.1 })
            | inr filled ↦
                rw (shown, ours, filled)
                  (answer_fields-IsPublic u.status u.json hs
                    (passed (leb 500 u.status) (is_member u.status public_statuses) shown) h)
          ]
        ]
      ]

  answer_options-IsPublic :
      (u : Upstream) (hs : Dict String) → IsClean hs → IsPublic (answer_options out u hs)
  unfolding answer_options
  answer_options-IsPublic u hs h = elim (Bool-cases (is_member u.status (200 ∷ 400 ∷ []))) [
    | inr hidden ↦ rw hidden (unavailable-IsPublic 503 refl)
    | inl shown ↦ rw shown (record {
      status = ground (arith, shown);
      content = own_text (eqb u.status 200);
      headers = h.0;
      not_stored = h.1;
    })
  ]

  answer-IsPublic : (req : Inquiry) (u : Option Upstream) → IsPublicOr (answer out req u)
  unfolding answer
  answer-IsPublic req none = unavailable-IsPublic 503 refl
  answer-IsPublic req (some u) =
      let hs = response_headers u.headers in
      elim (Bool-cases (req.method == "OPTIONS")) [
        | inl preflight ↦
            rw preflight (answer_options-IsPublic u hs (response_headers-IsClean u.headers))
        | inr submission ↦
            rw submission (answer_post-IsPublic u hs (response_headers-IsClean u.headers))
      ]

  relay-IsPublic :
      (req : Inquiry) (body : Option (List ℕ))
      → IsPublicOr (answer_received out req (relay out req body))
  unfolding relay answer_received too_large
  relay-IsPublic req none = error_response-IsPublic 413 "Request is too large" refl
  relay-IsPublic req (some body) = answer-IsPublic req _

  receive_declared-IsPublic :
      (req : Inquiry) (d : Declared)
      → IsPublicOr (answer_received out req (receive_declared out req d))
  unfolding receive_declared answer_received too_large
  receive_declared-IsPublic req acceptable = relay-IsPublic req (read_body req.chunks [])
  receive_declared-IsPublic req excessive = error_response-IsPublic 413 "Request is too large" refl
  receive_declared-IsPublic req unreadable = tt

  -- Whatever the auth service answers, what the route returns has one of the statuses of the form's contract or
  -- 200, 502 or 503, a text of the route's own or a JSON object with public keys only, headers of the
  -- safe set only, and `Cache-Control: no-store`.
  pub research_inquiries-IsPublic : (req : Inquiry) → IsPublicOr (research_inquiries out req)
  unfolding research_inquiries receive answer_received
  research_inquiries-IsPublic req = elim (Bool-cases (out.backend_url == "")) [
    | inl unset ↦ rw unset (unavailable-IsPublic 503 refl)
    | inr set ↦ rw set (receive_declared-IsPublic req (declared_size (req.header "content-length")))
  ]
