-- ===== src/Router/Examples.antt =====
-- The exemptions and the service of concrete paths.
use omnibioai_api_gateway.Prelude.{◌≡◌, refl, String, true, false, some, Option-cases, inl, inr}
use omnibioai_api_gateway.Text.{after_prefix, begins_with, removeprefix}
use omnibioai_api_gateway.Router.{resolve_service, service_for_path}
use omnibioai_api_gateway.Router.Exemptions.{
  is_skipped, auth_skip_paths, policy_skip_paths, route_service, policy_skipped-verify,
  verify_skips_policy,
}
use omnibioai_api_gateway.Router.Agreement.{root_path, service_for_path-route_service}

policy_skipped-verify_example : ◌≡◌ {A = String} "/auth/verify" "/auth/verify"
policy_skipped-verify_example =
    policy_skipped-verify "DELETE" "/auth/verify" (unfold is_skipped in refl)
      (unfold resolve_service route_service in refl)

verify_skips_policy_example :
    (is_skipped policy_skip_paths "DELETE" "/auth/verify" ≡ true)
    × (is_skipped auth_skip_paths "DELETE" "/auth/verify" ≡ false)
    × (resolve_service (route_service "/auth/verify") ≡ some "http://omnibioai-auth:8000")
verify_skips_policy_example = verify_skips_policy "DELETE"

-- A route path that takes the root path off.
abbrev route_path : String → String
route_path p = removeprefix p root_path

route_path-keeps : (p : String) → begins_with p root_path ≡ false → route_path p ≡ p
unfolding removeprefix begins_with
route_path-keeps p h = elim (Option-cases (after_prefix root_path p)) [
  | inl other ↦ rw other
  | inr (rest, there) ↦ cc (rw there at h)
]

service_for_path-route_service_example :
    service_for_path "/tes/api/v1/runs/" ≡ route_service (route_path "/tes/api/v1/runs/")
service_for_path-route_service_example =
    service_for_path-route_service route_path route_path-keeps "/tes/api/v1/runs/"
      (unfold begins_with in refl)
      (λ (e : route_service (route_path "/tes/api/v1/runs/") ≡ "").
        unfold route_service removeprefix in cc)
      (unfold route_service removeprefix in refl)

-- Under the root path the request reaches the service "tes", and the permission that is asked for is that of "_svc".
under_root_path :
    (route_service (route_path "/_svc/gateway/tes/runs") ≡ "tes")
    × (service_for_path "/_svc/gateway/tes/runs" ≡ "_svc")
unfolding route_service removeprefix service_for_path
under_root_path = (refl, refl)
