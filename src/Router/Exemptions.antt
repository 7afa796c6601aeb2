-- ===== src/Router/Exemptions.antt =====
-- Which paths the middlewares leave alone, and that none of them leads to a service.
use Prim.Native.Char.{code}
use mathlib.Core.Bool.{and-eq-true_iff}
use omnibioai_api_gateway.Prelude.{
  ◌≡◌, refl, String, Bool, true, false, ◌||◌, ◌&&◌, ◌==◌, none, some, List, [], ◌∷◌, inl, inr, any,
  All, eq_iff, if◌then◌else◌, Bool-cases, is_some,
}
use omnibioai_api_gateway.Dict.{Dict, lookup, keys}
use omnibioai_api_gateway.Text.{is_slash, begins_with, followed_by, begins_with_sound, ne_of_prefix}
use omnibioai_api_gateway.Router.{service_map, resolve_service}

-- app/core/public_routes.py
unfoldable pub is_public_research_submission : String → String → Bool
is_public_research_submission method path =
    path == "/api/v1/research-inquiries" && (method == "POST" || method == "OPTIONS")

-- `path in _SKIP_PATHS`
abbrev pub is_listed : String → List String → Bool
is_listed path = any (λ p. path == p)

-- The `_SKIP_PATHS` of AuthMiddleware, PolicyMiddleware and HPCMiddleware.
abbrev pub auth_skip_paths : List String
auth_skip_paths = "/health" ∷ "/" ∷ "/version" ∷ "/docs" ∷ "/openapi.json" ∷ []

abbrev pub policy_skip_paths : List String
policy_skip_paths = "/health" ∷ "/" ∷ "/auth/verify" ∷ "/version" ∷ "/docs" ∷ "/openapi.json" ∷ []

abbrev pub hpc_skip_paths : List String
hpc_skip_paths = "/health" ∷ "/" ∷ "/version" ∷ []

-- The test at the head of each `dispatch`.
unfoldable pub is_skipped : List String → String → String → Bool
unfolding is_public_research_submission begins_with
is_skipped skip_paths method path =
    is_listed path skip_paths
    || is_public_research_submission method path
    || begins_with path "/mcp"

-- The `service` of the route "/{service}/{path:path}", for the path that routing matches, which is without the
-- root path of app/main.py: what stands between the first slash and the second.
abbrev pub take_segment : String → String
take_segment String.[] = ""
take_segment (String.◌∷◌ c s) = if is_slash (code c) then "" else String.◌∷◌ c (take_segment s)

unfoldable pub route_service : String → String
route_service String.[] = ""
route_service (String.◌∷◌ c s) = if is_slash (code c) then take_segment s else ""

lookup_of_prefix :
    (p s : String) (d : Dict String)
    → begins_with s p ≡ true
    → All (λ k. begins_with k p ≡ false) (keys d)
    → lookup s d ≡ none
unfolding lookup
lookup_of_prefix p s [] h k = refl
lookup_of_prefix p s ((j, v) ∷ d) h k = rw (ne_of_prefix p s j h k.0) (lookup_of_prefix p s d h k.1)

-- No service starts with "mcp".
mcp_is_no_service : (s : String) → begins_with s "mcp" ≡ true → resolve_service s ≡ none
unfolding resolve_service
mcp_is_no_service s h =
    lookup_of_prefix "mcp" s service_map h
      (unfold begins_with in (refl, (refl, (refl, (refl, (refl, (refl, (refl, (refl, tt)))))))))

mcp_path_no_service :
    (path : String) → begins_with path "/mcp" ≡ true → resolve_service (route_service path) ≡ none
unfolding route_service
mcp_path_no_service path h =
    let (r, e) = begins_with_sound path "/mcp" h in
    rw e (mcp_is_no_service (followed_by "mcp" (take_segment r)) (unfold begins_with in refl))

-- A listed path is one of the list.
listed_induction :
    (P : String → Type 0) (path : String) (l : List String)
    → All P l
    → is_listed path l ≡ true
    → P path
listed_induction P path [] h e = cc
listed_induction P path (p ∷ l) h e = elim (Bool-cases (path == p)) [
  | inl same ↦ rw ((eq_iff path p).0 same) h.0
  | inr other ↦ listed_induction P path l h.1 (rw other at e)
]

abbrev HasNoService : String → Type 0
HasNoService path = resolve_service (route_service path) ≡ none

auth_listed : All HasNoService auth_skip_paths
unfolding resolve_service route_service
auth_listed = (refl, (refl, (refl, (refl, (refl, tt)))))

submission_no_service :
    (method path : String) → is_public_research_submission method path ≡ true → HasNoService path
unfolding is_public_research_submission
submission_no_service method path h =
    let e : path ≡ "/api/v1/research-inquiries" = (eq_iff _ _).0 (((and-eq-true_iff _ _).0 h).0) in
    rw e (unfold resolve_service route_service in refl)

-- A path that AuthMiddleware leaves alone, whichever of its three exemptions it is, is not one that the
-- catch-all route forwards to a service: no service is reached without a token.
pub auth_skipped-no_service :
    (method path : String)
    → is_skipped auth_skip_paths method path ≡ true
    → resolve_service (route_service path) ≡ none
unfolding is_skipped
auth_skipped-no_service method path h = elim (Bool-cases (is_listed path auth_skip_paths)) [
  | inl listed ↦ listed_induction HasNoService path auth_skip_paths auth_listed listed
  | inr unlisted ↦ elim (Bool-cases (is_public_research_submission method path)) [
    | inl submission ↦ submission_no_service method path submission
    | inr other ↦ mcp_path_no_service path (rw (unlisted, other) at h)
  ]
]

abbrev IsVerifyIfService : String → Type 0
IsVerifyIfService path =
    is_some (resolve_service (route_service path)) ≡ true → path ≡ "/auth/verify"

policy_listed : All IsVerifyIfService policy_skip_paths
unfolding resolve_service route_service
policy_listed = (λ e. cc, (λ e. cc, (λ e. refl, (λ e. cc, (λ e. cc, (λ e. cc, tt))))))

-- Of the paths that PolicyMiddleware leaves alone only "/auth/verify" is one that the catch-all
-- route forwards to a service.
pub policy_skipped-verify :
    (method path : String)
    → is_skipped policy_skip_paths method path ≡ true
    → is_some (resolve_service (route_service path)) ≡ true
    → path ≡ "/auth/verify"
unfolding is_skipped
policy_skipped-verify method path h k = elim (Bool-cases (is_listed path policy_skip_paths)) [
  | inl listed ↦ listed_induction IsVerifyIfService path policy_skip_paths policy_listed listed k
  | inr unlisted ↦ elim (Bool-cases (is_public_research_submission method path)) [
    | inl submission ↦ cc (rw (submission_no_service method path submission) at k)
    | inr other ↦ cc (rw (mcp_path_no_service path (rw (unlisted, other) at h)) at k)
  ]
]

-- And that path it leaves alone for every method, with the service "auth" behind it, while the
-- route that answers it takes GET alone.
pub verify_skips_policy :
    (method : String)
    → (is_skipped policy_skip_paths method "/auth/verify" ≡ true)
      × (is_skipped auth_skip_paths method "/auth/verify" ≡ false)
      × (resolve_service (route_service "/auth/verify") ≡ some "http://omnibioai-auth:8000")
unfolding is_skipped resolve_service route_service
verify_skips_policy method = (refl, refl, refl)
