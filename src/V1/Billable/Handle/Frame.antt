-- ===== src/V1/Billable/Handle/Frame.antt =====
-- What asking for a provider key keeps of the store.
use omnibioai_api_gateway.Prelude.{ℕ, inl, inr, String, ◌==◌, Bool-cases, Option-cases, eqb}
use omnibioai_api_gateway.Json.{Json, fields_of}
use omnibioai_api_gateway.Exec.Keeps.{Keeps}
use omnibioai_api_gateway.V1.{World, Outside, call_service}
use omnibioai_api_gateway.V1.Billable.Handle.{reveal_provider_key, revealed_by}

module _ {S : Type 0} (o : Outside S) (P : S → Type 0) where
  abbrev Kept : World S → Type 0
  Kept w = P w.store

  revealed_by-Keeps : (answer : ℕ × Json) → Keeps Kept (revealed_by o answer)
  unfolding revealed_by
  revealed_by-Keeps (status, response) w h = elim (Bool-cases (eqb status 200)) [
    | inl good ↦ elim (Option-cases (fields_of response)) [
      | inl no_object ↦ rw (good, no_object) h
      | inr (fs, object) ↦ rw (good, object) h
    ]
    | inr bad ↦ rw bad h
  ]

  -- Asking the auth service for a provider key is no matter of the store.
  pub reveal_provider_key-Keeps :
      (org_id provider : String) → Keeps Kept (reveal_provider_key o org_id provider)
  unfolding reveal_provider_key call_service
  reveal_provider_key-Keeps org_id provider w h = elim (Bool-cases (o.reveal_secret == "")) [
    | inl unset ↦ rw unset h
    | inr set ↦ rw set (revealed_by-Keeps _ _ h)
  ]
