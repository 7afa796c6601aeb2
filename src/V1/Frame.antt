-- ===== src/V1/Frame.antt =====
-- What the steps of app/routes/v1.py keep of the store: a property that the commands on their keys keep.
use omnibioai_api_gateway.Prelude.{
  String, Bool, true, false, none, Bool-cases, inl, inr, ◌==◌, if◌then◌else◌,
}
use omnibioai_api_gateway.Prelude.Int.{ℤ}
use omnibioai_api_gateway.Text.{◌^^◌}
use omnibioai_api_gateway.Exec.{pure, ◌>>=◌, ◌>>◌}
use omnibioai_api_gateway.Exec.Keeps.{Keeps, bind-Keeps}
use omnibioai_api_gateway.Redis.Steady.{Leaves}
use omnibioai_api_gateway.V1Store.{
  rate_key, concurrency_key, acquire_concurrency_slot, release_concurrency_slot, hit_rate_limit,
  rate_limit_for_org,
}
use omnibioai_api_gateway.V1Store.Frame.{
  hit_rate_limit-Keeps, rate_limit_for_org-Keeps, acquire_concurrency_slot-Keeps,
  release_concurrency_slot-Keeps,
}
use omnibioai_api_gateway.V1.{
  Outside, Caller, rate_budget, rate_limited, limit_or, acquire_concurrency_slots,
  release_concurrency_slots,
}

module _ {S : Type 0} (o : Outside S) (P : S → Type 0) (who : Caller) where
  pub rate_limited-Keeps :
      (request_id : String)
      → ((x : String) → Leaves o.commands P (rate_key o.commands x))
      → Keeps P (rate_limited o who request_id)
  unfolding rate_limited rate_budget
  rate_limited-Keeps request_id kept =
      let org = "org:" ^^ who.org_id in
      let hit = hit_rate_limit-Keeps o.commands P in
      elim (Bool-cases (who.org_id == "")) [
        | inl nobody ↦ rw nobody (
            bind-Keeps P _ _
              (bind-Keeps P (hit_rate_limit o.commands who.subject (limit_or o none) o.now) _
                (hit who.subject (limit_or o none) o.now (kept who.subject)) (λ mine s h. h))
              (λ budget s h. h))
        | inr somebody ↦ rw somebody (
            bind-Keeps P _ _
              (bind-Keeps P (rate_limit_for_org o.commands who.org_id) _
                (rate_limit_for_org-Keeps o.commands P who.org_id (kept org).get_kept)
                (λ limit.
                  bind-Keeps P (hit_rate_limit o.commands who.subject (limit_or o limit) o.now) _
                    (hit who.subject (limit_or o limit) o.now (kept who.subject))
                    (λ mine.
                      bind-Keeps P (hit_rate_limit o.commands org (limit_or o limit) o.now) _
                        (hit org (limit_or o limit) o.now (kept org)) (λ ours s h. h))))
              (λ budget s h. h))
      ]

  module _ (kept : (x : String) → Leaves o.commands P (concurrency_key o.commands x)) where
    pub release_slots-Keeps : Keeps P (release_concurrency_slots o who)
    unfolding release_concurrency_slots
    release_slots-Keeps =
        let give = λ (x : String). release_concurrency_slot-Keeps o.commands P x (kept x) in
        bind-Keeps P (release_concurrency_slot o.commands who.subject)
          (λ _.
            if who.org_id == ""
            then pure tt
            else release_concurrency_slot o.commands ("org:" ^^ who.org_id))
          (give who.subject)
          (λ done s h. elim (Bool-cases (who.org_id == "")) [
            | inl nobody ↦ rw nobody h
            | inr somebody ↦ rw somebody (give ("org:" ^^ who.org_id) s h)
          ])

    after_mine-Keeps :
        (limit : ℤ) (mine : Bool)
        → Keeps P (
            if mine
            then (if who.org_id == ""
                then pure true
                else (acquire_concurrency_slot o.commands ("org:" ^^ who.org_id) limit >>= λ ours.
                    if ours
                    then pure true
                    else (release_concurrency_slot o.commands who.subject >> pure false)))
            else pure false)
    after_mine-Keeps limit false s h = h
    after_mine-Keeps limit true s h = elim (Bool-cases (who.org_id == "")) [
      | inl nobody ↦ rw nobody h
      | inr somebody ↦ rw somebody (
          bind-Keeps P (acquire_concurrency_slot o.commands ("org:" ^^ who.org_id) limit)
            (λ ours.
              if ours
              then pure true
              else (release_concurrency_slot o.commands who.subject >> pure false))
            (acquire_concurrency_slot-Keeps o.commands P ("org:" ^^ who.org_id) (kept _) limit)
            (λ ours t same. elim (Bool-cases ours) [
              | inl room ↦ rw room same
              | inr full ↦ rw full (
                  bind-Keeps P (release_concurrency_slot o.commands who.subject) (λ _. pure false)
                    (release_concurrency_slot-Keeps o.commands P who.subject (kept _))
                    (λ done s h. h) t same)
            ])
            s h)
    ]

    pub acquire_slots-Keeps : (limit : ℤ) → Keeps P (acquire_concurrency_slots o who limit)
    unfolding acquire_concurrency_slots
    acquire_slots-Keeps limit =
        bind-Keeps P (acquire_concurrency_slot o.commands who.subject limit) _
          (acquire_concurrency_slot-Keeps o.commands P who.subject (kept _) limit)
          (after_mine-Keeps limit)
