-- ===== src/Router/Agreement.antt =====
-- The service that PolicyMiddleware asks about is the one that the catch-all route forwards to.
use Prim.Native.Char.{Char, code}
use omnibioai_api_gateway.Prelude.{
  ◌≡◌, ◌≢◌, refl, sym, ◌∙◌, String, true, false, ◌==◌, List, [], ◌∷◌, Bool-cases, inl, inr,
}
use omnibioai_api_gateway.Text.{begins_with, is_slash, lstrip, rstrip, split_slash, prepend}
use omnibioai_api_gateway.Router.{path_parts, service_of_parts, service_for_path}
use omnibioai_api_gateway.Router.Exemptions.{take_segment, route_service}

abbrev first : List String → String
first [] = ""
first (p ∷ ps) = p

first-prepend : (c : Char) (ps : List String) → first (prepend c ps) ≡ String.◌∷◌ c (first ps)
first-prepend c [] = refl
first-prepend c (p ∷ ps) = refl

first-split : (s : String) → first (split_slash s) ≡ take_segment s
unfolding split_slash
first-split String.[] = refl
first-split (String.◌∷◌ c s) = elim (Bool-cases (is_slash (code c))) [
  | inl slash ↦ rw slash
  | inr other ↦ rw (other, first-prepend, first-split s)
]

take_segment-rstrip : (s : String) → take_segment (rstrip is_slash s) ≡ take_segment s
unfolding rstrip
take_segment-rstrip String.[] = refl
take_segment-rstrip (String.◌∷◌ c s) = elim (Bool-cases (is_slash (code c))) [
  | inl slash ↦ elim (Bool-cases (rstrip is_slash s == "")) [
    | inl blank ↦ rw (slash, blank)
    | inr more ↦ rw (slash, more, slash)
  ]
  | inr other ↦ rw (other, other, take_segment-rstrip s)
]

-- With a first segment there, only one slash stands before it.
lstrip-segment : (s : String) → take_segment s ≢ "" → lstrip is_slash s ≡ s
unfolding lstrip
lstrip-segment String.[] h = refl
lstrip-segment (String.◌∷◌ c s) h = elim (Bool-cases (is_slash (code c))) [
  | inl slash ↦ absurd (h (rw slash))
  | inr other ↦ rw other
]

service_of_parts-first :
    (ps : List String) → (first ps == "v1") ≡ false → service_of_parts ps ≡ first ps
unfolding service_of_parts
service_of_parts-first [] h = refl
service_of_parts-first (p ∷ []) h = refl
service_of_parts-first (p ∷ q ∷ ps) h = rw h

first-path_parts :
    (c : Char) (s : String)
    → is_slash (code c) ≡ true
    → take_segment s ≢ ""
    → first (path_parts (String.◌∷◌ c s)) ≡ take_segment s
unfolding path_parts lstrip
first-path_parts c s slash h = rw (slash, lstrip-segment s h, first-split) (take_segment-rstrip s)

route_service-segment :
    (c : Char) (s : String)
    → is_slash (code c) ≡ true
    → route_service (String.◌∷◌ c s) ≡ take_segment s
unfolding route_service
route_service-segment c s slash = rw slash

own_path-route_service :
    (path : String)
    → route_service path ≢ ""
    → (route_service path == "v1") ≡ false
    → service_for_path path ≡ route_service path
unfolding service_for_path
own_path-route_service String.[] h k = absurd (h (unfold route_service in refl))
own_path-route_service (String.◌∷◌ c s) h k = elim (Bool-cases (is_slash (code c))) [
  | inl slash ↦
      let routed = route_service-segment c s slash in
      let e = first-path_parts c s slash (λ (x : take_segment s ≡ ""). h (routed ∙ x)) in
      service_of_parts-first (path_parts (String.◌∷◌ c s)) (rw e (rw routed at k)) ∙ e ∙ sym routed
  | inr other ↦ absurd (h (unfold route_service in rw other))
]

-- The root_path of the application in app/main.py.
abbrev pub root_path : String
root_path = "/_svc/gateway"

-- `route_path` is the path that routing matches, of Starlette, which takes the root path off and leaves a path
-- that does not start with it alone. For a path that does not start with it, wherever the catch-all
-- route has a service for the path, other than "v1", the permission and the policy decision are about
-- that same service.
pub service_for_path-route_service :
    (route_path : String → String)
    → ((p : String) → begins_with p root_path ≡ false → route_path p ≡ p)
    → (path : String) → begins_with path root_path ≡ false
    → route_service (route_path path) ≢ ""
    → (route_service (route_path path) == "v1") ≡ false
    → service_for_path path ≡ route_service (route_path path)
service_for_path-route_service route_path keeps path outside h k =
    let same = keeps path outside in
    rw same
      (own_path-route_service path (λ (e : route_service path ≡ ""). h (rw same e)) (rw same at k))
