-- ===== src/Upstream/Headers.antt =====
-- No client can speak for the gateway: what a forwarded request says in a reserved header.
use omnibioai_api_gateway.Prelude.{
  arith, any, Bool, String, ◌≡◌, refl, true, false, Option, none, some, List, [], ◌∷◌, ◌==◌,
  Bool-cases, inl, inr, All,
}
use omnibioai_api_gateway.Dict.{Dict, lookup, insert, lookup-insert}
use omnibioai_api_gateway.Text.{◌^^◌, lower}
use omnibioai_api_gateway.Http.{State}
use omnibioai_api_gateway.Upstream.{
  is_reserved, client_headers, set_identity, set_authorization, build_upstream_headers,
}

module _ (P : String × String → Type 0) where
  All-insert : (k v : String) (d : Dict String) → P (k, v) → All P d → All P (insert k v d)
  unfolding insert
  All-insert k v [] h hs = (h, tt)
  All-insert k v ((j, w) ∷ d) h hs = elim (Bool-cases (j == k)) [
    | inl same ↦ rw same (h, hs.1)
    | inr other ↦ rw other (hs.0, All-insert k v d h hs.1)
  ]

-- The headers that the gateway sets for a state, alone.
abbrev pub gateway_headers : State → Dict String
gateway_headers st = set_identity st []

-- The names of the headers that the gateway sets.
abbrev pub identity_names : List String
identity_names =
    "X-Internal-Service" ∷ "X-Trace-Id" ∷ "X-User-Id" ∷ "X-Organization-ID" ∷ "X-Client-ID"
    ∷ "X-Permissions" ∷ "X-Token-Type" ∷ "Authorization" ∷ []

-- The name of a header that the gateway sets, with letters in any case.
unfoldable pub is_identity_name : String → Bool
unfolding lower
is_identity_name k = any (λ n. lower k == lower n) identity_names

-- A header with such a name has the value that the gateway sets under exactly this spelling.
abbrev pub IsOwn : State → String × String → Type 0
IsOwn st (k, v) = is_identity_name k ≡ true → lookup k (gateway_headers st) ≡ some v

is_identity_name_of_free : (k : String) → is_reserved k ≡ false → is_identity_name k ≡ false
unfolding is_identity_name is_reserved lower
is_identity_name_of_free k h = grind arith

client_headers-IsOwn :
    (st : State) (hs : List (String × String)) (d : Dict String)
    → All (IsOwn st) d
    → All (IsOwn st) (client_headers hs d)
unfolding client_headers
client_headers-IsOwn st [] d h = h
client_headers-IsOwn st ((k, v) ∷ hs) d h = elim (Bool-cases (is_reserved k)) [
  | inl reserved ↦ rw reserved (client_headers-IsOwn st hs d h)
  | inr free ↦ rw free (
      client_headers-IsOwn st hs (insert k v d)
        (All-insert (IsOwn st) k v d (λ e. cc (is_identity_name_of_free k free)) h))
]

lookup-set_authorization :
    (t : Option String) (k : String) (d : Dict String)
    → ("Authorization" == k) ≡ false
    → lookup k (set_authorization t d) ≡ lookup k d
lookup-set_authorization none k d h = refl
lookup-set_authorization (some t) k d h = elim (Bool-cases (t == "")) [
  | inl blank ↦ rw blank
  | inr given ↦ rw (given, lookup-insert, h)
]

authorization-IsOwn :
    (st : State) (t : Option String) (own d : Dict String)
    → gateway_headers st ≡ set_authorization t own
    → All (IsOwn st) d
    → All (IsOwn st) (set_authorization t d)
authorization-IsOwn st none own d e h = h
authorization-IsOwn st (some t) own d e h = elim (Bool-cases (t == "")) [
  | inl blank ↦ rw blank h
  | inr given ↦ rw given (
      All-insert (IsOwn st) "Authorization" ("Bearer " ^^ t) d (λ _. rw (e, given, lookup-insert))
        h)
]

set_identity-IsOwn :
    (st : State) (d : Dict String) → All (IsOwn st) d → All (IsOwn st) (set_identity st d)
unfolding set_identity lookup insert
set_identity-IsOwn st d h =
    let put = All-insert (IsOwn st) in
    authorization-IsOwn st st.token _ _ refl (
      put "X-Token-Type" _ _ (λ _. lookup-set_authorization st.token "X-Token-Type" _ refl)
        (put "X-Permissions" _ _ (λ _. lookup-set_authorization st.token "X-Permissions" _ refl)
          (put "X-Client-ID" _ _ (λ _. lookup-set_authorization st.token "X-Client-ID" _ refl)
            (put "X-Organization-ID" _ _
              (λ _. lookup-set_authorization st.token "X-Organization-ID" _ refl)
              (put "X-User-Id" _ _ (λ _. lookup-set_authorization st.token "X-User-Id" _ refl)
                (put "X-Trace-Id" _ _ (λ _. lookup-set_authorization st.token "X-Trace-Id" _ refl)
                  (put "X-Internal-Service" _ d
                    (λ _. lookup-set_authorization st.token "X-Internal-Service" _ refl) h)))))))

-- In the headers of a forwarded request every header whose name, with letters in any case, is that of a header
-- that the gateway sets has the spelling and the value that the gateway gives it for the
-- verified identity: nothing that the client says under such a name is passed on.
pub upstream_headers-IsOwn :
    (headers : List (String × String)) (st : State)
    → All (IsOwn st) (build_upstream_headers headers st)
unfolding build_upstream_headers
upstream_headers-IsOwn headers st =
    set_identity-IsOwn st (client_headers headers []) (client_headers-IsOwn st headers [] tt)
