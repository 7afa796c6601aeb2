-- ===== src/V1/Free/Examples.antt =====
-- The routes that are not billed, on a concrete request.
use omnibioai_api_gateway.Prelude.{◌≡◌, String}
use omnibioai_api_gateway.Text.{◌^^◌}
use omnibioai_api_gateway.MemoryStore.{MemoryStore}
use omnibioai_api_gateway.V1.Examples.{waiting}
use omnibioai_api_gateway.V1.Billable.Handle.Examples.{answering, request, state}
use omnibioai_api_gateway.V1.Free.{
  literature_studies, literature_domains, literature_usage, literature_models, set_provider_key,
  get_provider_key, delete_provider_key,
}
use omnibioai_api_gateway.V1.Free.Calls.{Enquires, caller_org, free_routes-Enquires}

abbrev org : String
org = caller_org request state answering

free_routes-Enquires_example :
    Enquires request state "http://rag:8096/v1/studies" waiting
      (literature_studies answering request state waiting)
    × Enquires request state "http://rag:8096/v1/studies" waiting
        (literature_domains answering request state waiting)
    × Enquires request state
        ("http://billing-service:8005" ^^ "/" ^^ "billing/organizations/" ^^ org
          ^^ "/subscription/usage-limits")
        waiting
        (literature_usage answering request state waiting)
    × ((s : MemoryStore) × ((literature_models answering request state waiting).1
          ≡ record waiting { store = s }))
    × Enquires request state
        ("http://omnibioai-auth:8000" ^^ "/" ^^ "orgs/" ^^ org ^^ "/provider-keys/" ^^ "claude")
        waiting
        (set_provider_key answering request state "claude" waiting)
    × Enquires request state
        ("http://omnibioai-auth:8000" ^^ "/" ^^ "orgs/" ^^ org ^^ "/provider-keys")
        waiting
        (get_provider_key answering request state waiting)
    × Enquires request state
        ("http://omnibioai-auth:8000" ^^ "/" ^^ "orgs/" ^^ org ^^ "/provider-keys/" ^^ "claude")
        waiting
        (delete_provider_key answering request state "claude" waiting)
free_routes-Enquires_example = free_routes-Enquires request state answering "claude" waiting
