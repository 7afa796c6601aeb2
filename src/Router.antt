-- ===== src/Router.antt =====
-- app/core/router.py: the services, the permission that each asks for, and the service of a path.
pub mod Exemptions
pub mod Agreement
mod Examples
use omnibioai_api_gateway.Prelude.{
  String, Bool, Option, none, some, List, [], ◌∷◌, ◌==◌, if◌then◌else◌,
}
use omnibioai_api_gateway.Dict.{Dict, lookup}
use omnibioai_api_gateway.Text.{is_slash, strip, split_slash}

abbrev pub service_map : Dict String
service_map =
    ("workbench", "http://workbench:8000")
    ∷ ("tes", "http://tes:8081")
    ∷ ("toolserver", "http://toolserver:9090")
    ∷ ("model-registry", "http://model-registry:8095")
    ∷ ("rag", "http://rag:8096")
    ∷ ("servicenow", "http://servicenow:8097")
    ∷ ("billing", "http://billing-service:8005")
    ∷ ("auth", "http://omnibioai-auth:8000")
    ∷ []

unfoldable pub resolve_service : String → Option String
unfolding lookup
resolve_service service = lookup service service_map

abbrev pub service_permission_map : Dict String
service_permission_map =
    ("workbench", "workflow.execute")
    ∷ ("tes", "workflow.execute")
    ∷ ("toolserver", "workflow.execute")
    ∷ ("model-registry", "model.use")
    ∷ ("rag", "dataset.read")
    ∷ ("servicenow", "servicenow_incident.read")
    ∷ ("billing", "usage.read")
    ∷ ("auth", "provider_keys.manage")
    ∷ []

unfoldable pub resolve_required_permission : String → Option String
unfolding lookup
resolve_required_permission service = lookup service service_permission_map

abbrev pub v1_service_map : Dict String
v1_service_map = ("literature", "rag") ∷ ("provider-keys", "auth") ∷ []

-- path.strip("/").split("/")
unfoldable pub path_parts : String → List String
unfolding strip split_slash
path_parts path = split_slash (strip is_slash path)

unfoldable pub service_of_parts : List String → String
unfolding lookup
service_of_parts [] = ""
service_of_parts (p ∷ []) = p
service_of_parts (p ∷ area ∷ rest) =
    if p == "v1" then elim (lookup area v1_service_map) [ none ↦ p | some service ↦ service ] else p

unfoldable pub service_for_path : String → String
unfolding service_of_parts path_parts
service_for_path path = service_of_parts (path_parts path)
