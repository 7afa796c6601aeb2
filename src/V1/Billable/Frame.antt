-- ===== src/V1/Billable/Frame.antt =====
-- What the steps of a billable call keep of the store: a property that the commands on their keys keep.
use omnibioai_api_gateway.Prelude.{ℕ, inl, inr, String, Bool-cases, Option-cases}
use omnibioai_api_gateway.Json.{Json, Fields, get}
use omnibioai_api_gateway.Exec.{pure, or_raise, ◌>>=◌, ◌>>◌}
use omnibioai_api_gateway.Exec.Keeps.{Keeps, bind-Keeps}
use omnibioai_api_gateway.Redis.Steady.{Leaves}
use omnibioai_api_gateway.V1Store.{idem_key}
use omnibioai_api_gateway.V1Store.Frame.{idempotency_finish-Keeps}
use omnibioai_api_gateway.V1.{World, Outside, UsageEvent}
use omnibioai_api_gateway.V1.Usage.{emit_usage, emit_usage-store}
use omnibioai_api_gateway.V1.Billable.{
  Endpoint, Context, settle, emit_tokens, emit_all, is_null, token_usage, token_input_resource,
  token_output_resource,
}

module _ {S : Type 0} (o : Outside S) (P : S → Type 0) (ctx : Context) where
  -- The property, of the store in the world.
  abbrev pub Kept : World S → Type 0
  Kept w = P w.store

  pub settle-Keeps :
      ((key : String)
        → Leaves o.commands P (idem_key o.commands o.sha o.idempotency_ttl ctx.caller.subject key))
      → (status : ℕ) (body : Json) → Keeps Kept (settle o ctx status body)
  unfolding settle
  settle-Keeps kept status body w h = elim (Option-cases ctx.idempotency_key) [
    | inl absent ↦ rw absent h
    | inr (key, there) ↦ rw there (
        idempotency_finish-Keeps o.commands P o.sha o.idempotency_ttl ctx.caller.subject key
          (kept key) ctx.fingerprint status body w.store h)
  ]

  emit_usage-Keeps : (e : UsageEvent) → Keeps Kept (emit_usage o e)
  emit_usage-Keeps e w h = rw (emit_usage-store o e w) h

  emit_tokens-Keeps :
      (resource suffix : String) (quantity model : Json)
      → Keeps Kept (emit_tokens o ctx resource suffix quantity model)
  unfolding emit_tokens
  emit_tokens-Keeps resource suffix quantity model w h = elim (Bool-cases (is_null o quantity)) [
    | inl absent ↦ rw absent h
    | inr there ↦
        rw there
          (bind-Keeps Kept (emit_usage o _) (λ _. pure tt) (emit_usage-Keeps _) (λ sent s h. h) w h)
  ]

  pub emit_all-Keeps : (ep : Endpoint) (response : Fields) → Keeps Kept (emit_all o ep ctx response)
  unfolding emit_all
  emit_all-Keeps ep response =
      let input = λ (usage : Fields).
        emit_tokens o ctx token_input_resource ":tokens:input" (get "input_tokens" usage)
          (get "model_source" response) in
      let output = λ (usage : Fields).
        emit_tokens o ctx token_output_resource ":tokens:output" (get "output_tokens" usage)
          (get "model_source" response) in
      bind-Keeps Kept (emit_usage o _)
        (λ _. or_raise (token_usage o response) >>= λ usage. input usage >> output usage)
        (emit_usage-Keeps _)
        (λ sent.
          bind-Keeps Kept (or_raise (token_usage o response)) (λ usage. input usage >> output usage)
            (λ s h. h)
            (λ usage.
              bind-Keeps Kept (input usage) (λ _. output usage) (emit_tokens-Keeps _ _ _ _)
                (λ done. emit_tokens-Keeps _ _ _ _)))
