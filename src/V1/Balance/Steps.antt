-- ===== src/V1/Balance/Steps.antt =====
-- What the rate limits, the slots, the reservation and the refund of a billable call do to the three
-- counters.
use omnibioai_api_gateway.Prelude.{
  ◌≡◌, refl, String, Bool, true, false, Option, none, some, Bool-cases, inl, inr, ◌==◌,
  if◌then◌else◌,
}
use omnibioai_api_gateway.Prelude.Int.{ℤ, pos, ◌+ℤ◌, ◌-ℤ◌}
use omnibioai_api_gateway.Exec.Keeps.{Keeps}
use omnibioai_api_gateway.Redis.Steady.{Steady, steady_laws}
use omnibioai_api_gateway.V1Store.{
  acquire_concurrency_slot, release_concurrency_slot, reserve_quota, release_quota,
}
use omnibioai_api_gateway.V1Store.Quota.{
  has_unit, reserve_unmetered, reserve_metered, release_metered, add_back, release_unmetered,
}
use omnibioai_api_gateway.V1Store.Concurrency.{has_slot, acquire-has_slot, release_lem, sub_back}
use omnibioai_api_gateway.V1.{
  Outside, Caller, rate_limited, acquire_concurrency_slots, release_concurrency_slots,
}
use omnibioai_api_gateway.V1.Frame.{rate_limited-Keeps}
use omnibioai_api_gateway.V1.Balance.{
  can_take, taken, org_subject, Holds, rate-Leaves, quota-Holds, same-Holds, mine-Holds, ours-Holds,
}

module _ {S : Type 0} (o : Outside S) (store : Steady o.commands) (who : Caller)
    (resource : String) where
  abbrev pub Standing : Option ℤ → ℤ → ℤ → S → Type 0
  Standing = Holds store who.subject who.org_id resource

  -- Looking at the rate limits moves none of the counters.
  pub rate_limited-Standing :
      (q : Option ℤ) (a b : ℤ) (request_id : String)
      → Keeps (Standing q a b) (rate_limited o who request_id)
  rate_limited-Standing q a b request_id =
      rate_limited-Keeps o (Standing q a b) who request_id
        (rate-Leaves store who.subject who.org_id resource q a b)

  -- A refunded unit is the one that was taken.
  pub release_quota-Standing :
      (q : Option ℤ) (a b : ℤ)
      → (s : S) → Standing (taken q) a b s
      → ((release_quota o.commands who.org_id resource s).0 ≡ some tt)
        × Standing q a b (release_quota o.commands who.org_id resource s).1
  release_quota-Standing none a b s h =
      let run =
        release_unmetered o.commands (steady_laws store) who.org_id resource 0 s h.up h.quota in
      (run.returned, same-Holds store who.subject who.org_id resource h run)
  release_quota-Standing (some z) a b s h =
      let run =
        release_metered o.commands (steady_laws store) who.org_id resource (z -ℤ pos 1) 0 s h.up
          h.quota in
      (run.returned, rw add_back at (quota-Holds store who.subject who.org_id resource h run))

  -- A unit is taken exactly if there is one.
  pub reserve_quota-Standing :
      (q : Option ℤ) (a b : ℤ)
      → (s : S) → Standing q a b s
      → ((reserve_quota o.commands who.org_id resource s).0 ≡ some (can_take q))
        × Standing
            (if can_take q then taken q else q)
            a
            b
            (reserve_quota o.commands who.org_id resource s).1
  reserve_quota-Standing none a b s h =
      let run =
        reserve_unmetered o.commands (steady_laws store) who.org_id resource 0 s h.up h.quota in
      (run.returned, same-Holds store who.subject who.org_id resource h run)
  reserve_quota-Standing (some z) a b s h =
      let run =
        reserve_metered o.commands (steady_laws store) who.org_id resource z 0 s h.up h.quota in
      (
        run.returned,
        elim (Bool-cases (has_unit z)) [
          | inl unit ↦
              rw unit (quota-Holds store who.subject who.org_id resource h (rw unit at run))
          | inr spent ↦
              rw spent (same-Holds store who.subject who.org_id resource h (rw spent at run))
        ],
      )

  module _ (distinct : (who.subject == org_subject who.org_id) ≡ false) where
    take_mine :
        (limit : ℤ) (q : Option ℤ) (a b : ℤ) (s : S)
        → Standing q a b s
        → let x = acquire_concurrency_slot o.commands who.subject limit s in
          (x.0 ≡ some (has_slot limit a))
          × Standing q (if has_slot limit a then a +ℤ pos 1 else a) b x.1
    take_mine limit q a b s h =
        let run =
          acquire-has_slot o.commands (steady_laws store) who.subject limit a 0 s h.up h.mine in
        (run.returned, mine-Holds store who.subject who.org_id resource distinct h run)

    take_ours :
        (limit : ℤ) (q : Option ℤ) (a b : ℤ) (s : S)
        → Standing q a b s
        → let x = acquire_concurrency_slot o.commands (org_subject who.org_id) limit s in
          (x.0 ≡ some (has_slot limit b))
          × Standing q a (if has_slot limit b then b +ℤ pos 1 else b) x.1
    take_ours limit q a b s h =
        let run =
          acquire-has_slot o.commands (steady_laws store) (org_subject who.org_id) limit b 0 s h.up
            h.ours in
        (run.returned, ours-Holds store who.subject who.org_id resource distinct h run)

    give_mine :
        (q : Option ℤ) (a b : ℤ) (s : S)
        → Standing q (a +ℤ pos 1) b s
        → let x = release_concurrency_slot o.commands who.subject s in
          (x.0 ≡ some tt) × Standing q a b x.1
    give_mine q a b s h =
        let run =
          release_lem o.commands (steady_laws store) who.subject (a +ℤ pos 1) 0 s h.up h.mine in
        (
          run.returned,
          rw sub_back at (mine-Holds store who.subject who.org_id resource distinct h run),
        )

    give_ours :
        (q : Option ℤ) (a b : ℤ) (s : S)
        → Standing q a (b +ℤ pos 1) s
        → let x = release_concurrency_slot o.commands (org_subject who.org_id) s in
          (x.0 ≡ some tt) × Standing q a b x.1
    give_ours q a b s h =
        let run =
          release_lem o.commands (steady_laws store) (org_subject who.org_id) (b +ℤ pos 1) 0 s h.up
            h.ours in
        (
          run.returned,
          rw sub_back at (ours-Holds store who.subject who.org_id resource distinct h run),
        )

    module _ (known : (who.org_id == "") ≡ false) where
      -- A request has both slots, or none: where the organization has no slot left, the caller's goes back.
      pub acquire_slots-Standing :
          (limit : ℤ) (q : Option ℤ) (a b : ℤ) (s : S)
          → Standing q a b s
          → (granted : Bool) × ((acquire_concurrency_slots o who limit s).0 ≡ some granted)
            × Standing q
                (if granted then a +ℤ pos 1 else a)
                (if granted then b +ℤ pos 1 else b)
                (acquire_concurrency_slots o who limit s).1
      unfolding acquire_concurrency_slots
      acquire_slots-Standing limit q a b s h =
          let (answered, after) = take_mine limit q a b s h in
          elim (Bool-cases (has_slot limit a)) [
            | inl free ↦
                let s1 = (acquire_concurrency_slot o.commands who.subject limit s).1 in
                let (told, later) = take_ours limit q (a +ℤ pos 1) b s1 (rw free at after) in
                elim (Bool-cases (has_slot limit b)) [
                  | inl room ↦ rw (answered, free, known, told, room) (true, refl, rw room at later)
                  | inr full ↦
                      let (done, back) =
                        give_mine q a b
                          (acquire_concurrency_slot o.commands (org_subject who.org_id) limit s1).1
                          (rw full at later) in
                      rw (answered, free, known, told, full, done) (false, refl, back)
                ]
            | inr over ↦ rw (answered, over) (false, refl, rw over at after)
          ]

      pub release_slots-Standing :
          (q : Option ℤ) (a b : ℤ) (s : S)
          → Standing q (a +ℤ pos 1) (b +ℤ pos 1) s
          → Standing q a b (release_concurrency_slots o who s).1
      unfolding release_concurrency_slots
      release_slots-Standing q a b s h =
          let (done, after) = give_mine q a (b +ℤ pos 1) s h in
          rw (done, known)
            (give_ours q a b (release_concurrency_slot o.commands who.subject s).1 after).1
