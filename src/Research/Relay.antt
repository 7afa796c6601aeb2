-- ===== src/Research/Relay.antt =====
-- What the public form lets in.
use mathlib.Core.List.{flatten, append_assoc, append-nil}
use omnibioai_api_gateway.Prelude.{
  ℕ, ◌+◌, ◌≤◌, ◌<◌, ◌≡◌, refl, sym, ap, ◌∙◌, ◌⊎◌, inl, inr, String, Bool, true, false, Option, none,
  some, List, [], ◌∷◌, ◌++◌, ◌==◌, ltb, any, arith, All, length, length-append, ltb→lt, Bool-cases,
}
use omnibioai_api_gateway.Dict.{Dict, keys, lookup, lookup-insert, All-insert}
use omnibioai_api_gateway.Research.{
  Inquiry, Relayed, Outside, unavailable, too_large, declared_size, Declared, acceptable, excessive,
  unreadable, read_body, Received, refused, relayed, raised, relay, receive_declared, receive,
  client_ip, copy_header, base_headers, preflight_headers, relayed_headers, max_request_bytes,
}

abbrev is_relayed_name : String → Bool
is_relayed_name k =
    any (λ n. k == n)
      ("Accept" ∷ "Origin" ∷ "CF-Connecting-IP" ∷ "X-Trace-ID" ∷ "Content-Type"
        ∷ "access-control-request-method" ∷ "access-control-request-headers" ∷ [])

-- The body read is the chunks behind one another, and they are refused only where these are too long.
read_body-cases :
    (chunks : List (List ℕ)) (body : List ℕ)
    → length body ≤ max_request_bytes
    → ((read_body chunks body ≡ none) × (max_request_bytes < length (body ++ flatten chunks)))
      ⊎ ((read_body chunks body ≡ some (body ++ flatten chunks))
          × (length (body ++ flatten chunks) ≤ max_request_bytes))
unfolding read_body flatten
read_body-cases [] body h =
    inr (ap some (sym (append-nil body)), omega (arith, length-append body [], h))
read_body-cases (c ∷ cs) body h =
    elim (Bool-cases (ltb max_request_bytes (length body + length c))) [
      | inl long ↦ inl (
        rw long,
        omega (
          arith,
          length-append body (c ++ flatten cs),
          length-append c (flatten cs),
          ltb→lt max_request_bytes (length body + length c) long,
        ),
      )
      | inr short ↦
          rw (short, ← append_assoc body c (flatten cs))
            (read_body-cases cs (body ++ c) (ground (arith, length-append body c, short)))
    ]

-- The request that is sent on: the bytes that came, at most MAX_REQUEST_BYTES, no header but those named, and
-- the address that `_client_ip` finds.
pub record Relays (out : Outside) (req : Inquiry) (q : Relayed) : Type 0 where
  pub content : q.content ≡ flatten req.chunks
  pub size : length q.content ≤ max_request_bytes
  pub method : q.method ≡ req.method
  pub names : All (λ k. is_relayed_name k ≡ true) (keys q.headers)
  pub address : lookup "CF-Connecting-IP" q.headers ≡ some (client_ip out req)

-- What becomes of a request, by why: nothing is relayed without an address to relay to, or where the
-- declared or the actual size is too large.
abbrev pub IsReceived : (out : Outside) → Inquiry → Received out → Type 0
IsReceived out req (refused r) =
    ((r ≡ unavailable 503) × ((out.backend_url == "") ≡ true))
    ⊎ ((r ≡ too_large)
        × ((declared_size (req.header "content-length") ≡ excessive)
            ⊎ (max_request_bytes < length (flatten req.chunks))))
IsReceived out req (relayed q) = Relays out req q
IsReceived out req raised = declared_size (req.header "content-length") ≡ unreadable

copy_header-names :
    (sent : String) (o : Option String) (d : Dict String)
    → is_relayed_name sent ≡ true
    → All (λ k. is_relayed_name k ≡ true) (keys d)
    → All (λ k. is_relayed_name k ≡ true) (keys (copy_header sent o d))
copy_header-names sent none d p h = h
copy_header-names sent (some v) d p h = elim (Bool-cases (v == "")) [
  | inl empty ↦ rw empty h
  | inr given ↦ rw given (All-insert (λ k. is_relayed_name k ≡ true) sent v d p h)
]

copy_header-lookup :
    (sent key : String) (o : Option String) (d : Dict String)
    → (sent == key) ≡ false
    → lookup key (copy_header sent o d) ≡ lookup key d
copy_header-lookup sent key none d other = refl
copy_header-lookup sent key (some v) d other = elim (Bool-cases (v == "")) [
  | inl empty ↦ rw empty
  | inr given ↦ rw (given, lookup-insert sent key v d, other)
]

module _ (out : Outside) (req : Inquiry) where
  abbrev typed : Dict String
  typed = copy_header "Content-Type" (req.header "content-type") (base_headers out req)

  abbrev with_method : Dict String
  with_method =
      copy_header "access-control-request-method" (req.header "access-control-request-method") typed

  typed-names : All (λ k. is_relayed_name k ≡ true) (keys typed)
  unfolding base_headers
  typed-names =
      copy_header-names "Content-Type" (req.header "content-type") (base_headers out req) refl
        (refl, (refl, (refl, (refl, tt))))

  typed-address : lookup "CF-Connecting-IP" typed ≡ some (client_ip out req)
  unfolding base_headers lookup
  typed-address =
      copy_header-lookup "Content-Type" "CF-Connecting-IP" (req.header "content-type")
        (base_headers out req) refl

  relayed_headers-names : All (λ k. is_relayed_name k ≡ true) (keys (relayed_headers out req))
  unfolding relayed_headers preflight_headers
  relayed_headers-names = elim (Bool-cases (req.method == "OPTIONS")) [
    | inl preflight ↦ rw preflight (
        copy_header-names _ (req.header "access-control-request-headers") with_method refl
          (copy_header-names _ (req.header "access-control-request-method") typed refl typed-names))
    | inr submission ↦ rw submission typed-names
  ]

  relayed_headers-address :
      lookup "CF-Connecting-IP" (relayed_headers out req) ≡ some (client_ip out req)
  unfolding relayed_headers preflight_headers
  relayed_headers-address = elim (Bool-cases (req.method == "OPTIONS")) [
    | inl preflight ↦ rw preflight (
        copy_header-lookup _ "CF-Connecting-IP" (req.header "access-control-request-headers")
          with_method refl
        ∙ copy_header-lookup _ "CF-Connecting-IP" (req.header "access-control-request-method") typed
            refl
        ∙ typed-address)
    | inr submission ↦ rw submission typed-address
  ]

  relay-IsReceived : IsReceived out req (relay out req (read_body req.chunks []))
  unfolding relay
  relay-IsReceived = elim (read_body-cases req.chunks [] (omega arith)) [
    | inl (long, size) ↦ rw long (inr (refl, inr size))
    | inr (body, size) ↦ rw body (record {
      content = refl;
      size = size;
      method = refl;
      names = relayed_headers-names;
      address = relayed_headers-address;
    })
  ]

  receive_declared-IsReceived :
      (d : Declared)
      → declared_size (req.header "content-length") ≡ d
      → IsReceived out req (receive_declared out req d)
  unfolding receive_declared
  receive_declared-IsReceived acceptable e = relay-IsReceived
  receive_declared-IsReceived excessive e = inr (refl, inl e)
  receive_declared-IsReceived unreadable e = e

  -- A request is refused with 503 only without a backend, and with 413 only where its Content-Length is no
  -- number up to MAX_REQUEST_BYTES or its chunks are longer than that; it raises only where `int` refuses the
  -- Content-Length. Otherwise just its bytes are relayed, at most MAX_REQUEST_BYTES of them, with no
  -- header but the seven named ones and with the address of `_client_ip`.
  pub receive-IsReceived : IsReceived out req (receive out req)
  unfolding receive
  receive-IsReceived = elim (Bool-cases (out.backend_url == "")) [
    | inl unset ↦ rw unset (inl (refl, unset))
    | inr set ↦
        rw set (receive_declared-IsReceived (declared_size (req.header "content-length")) refl)
  ]
