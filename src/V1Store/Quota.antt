-- ===== src/V1Store/Quota.antt =====
-- `reserve_quota` and `release_quota` on a working store, one request at a time.
pub mod Concurrent
mod Examples
use omnibioai_api_gateway.Prelude.{
  ℕ, suc, String, ◌≡◌, refl, sym, ap, ◌∙◌, Bool, true, false, Option, none, some, arith, Bool-cases,
  inl, inr, ◌==◌, eq_iff, if◌then◌else◌, is_some, eq_refl,
}
use omnibioai_api_gateway.Prelude.Int.{ℤ, pos, ltb_ℤ, ◌+ℤ◌, ◌-ℤ◌, int_laws}
use omnibioai_api_gateway.Redis.{Stored, int_text, Commands}
use omnibioai_api_gateway.Redis.Laws.{
  View, update, update_twice, update_same, Runs, CommandLaws, Runs-view, bind-Runs, catch-Runs,
  pure-Runs,
}
use omnibioai_api_gateway.V1Store.{quota_key, count_down, reserve_quota, release_quota}

-- Whether a counter that holds `z` has a unit left, and what a reservation makes of it.
abbrev pub has_unit : ℤ → Bool
has_unit z = if ltb_ℤ (z -ℤ pos 1) (pos 0) then false else true

pub add_back : (z : ℤ) → z -ℤ pos 1 +ℤ pos 1 ≡ z
add_back z = omega int_laws

module _ {S : Type 0} (c : Commands S) (laws : CommandLaws c) (org_id resource : String) where
  open laws use {view, HasRoom}

  -- An organization without a counter is not metered, and no counter is made.
  pub reserve_unmetered :
      (n : ℕ) (s : S)
      → HasRoom (suc n) s
      → view s (quota_key c org_id resource) ≡ none
      → Runs view HasRoom (reserve_quota c org_id resource s) true (view s) n
  unfolding reserve_quota
  reserve_unmetered n s room absent =
      let got = laws.obeys.get_lem (quota_key c org_id resource) n s room in
      rw (got.returned, absent) (record { returned = refl; values = got.values; room = got.room })

  -- A metered reservation succeeds exactly if a unit is left, and then takes it; a refused one leaves
  -- every counter as it was.
  pub reserve_metered :
      (z : ℤ) (n : ℕ) (s : S)
      → HasRoom (suc (suc (suc n))) s
      → view s (quota_key c org_id resource) ≡ some (int_text z)
      → Runs view HasRoom
          (reserve_quota c org_id resource s)
          (has_unit z)
          (if has_unit z
            then update (view s) (quota_key c org_id resource) (some (int_text (z -ℤ pos 1)))
            else view s)
          n
  unfolding reserve_quota
  reserve_metered z n s room metered =
      let key = quota_key c org_id resource in
      let got = laws.obeys.get_lem key (suc (suc n)) s room in
      let s1 = (c.get key s).1 in
      let took = laws.obeys.decr_lem key z (suc n) s1 got.room (rw (Runs-view got, metered)) in
      let s2 = (c.decr key s1).1 in
      let back =
        laws.obeys.incr_lem key (z -ℤ pos 1) n s2 took.room (rw (Runs-view took, eq_refl key)) in
      rw (got.returned, metered, took.returned)
        (elim (Bool-cases (ltb_ℤ (z -ℤ pos 1) (pos 0))) [
          | inl spent ↦
              rw (spent, back.returned)
                (record {
                  returned = refl;
                  values = λ j.
                      back.values j
                      ∙ rw (Runs-view took, Runs-view got, add_back)
                          (update_twice (view s) key _ _ j ∙ update_same (view s) key _ j metered);
                  room = back.room;
                })
          | inr left ↦ rw left (record {
            returned = refl;
            values = λ j.
                took.values j
                ∙ ap (λ w. update w key (some (int_text (z -ℤ pos 1))) j) (Runs-view got);
            room = laws.obeys.room_left n s2 took.room;
          })
        ])

  -- A refund makes no counter for an organization that is not metered.
  pub release_unmetered :
      (n : ℕ) (s : S)
      → HasRoom (suc n) s
      → view s (quota_key c org_id resource) ≡ none
      → Runs view HasRoom (release_quota c org_id resource s) tt (view s) n
  unfolding release_quota
  release_unmetered n s room absent =
      let got = laws.obeys.get_lem (quota_key c org_id resource) n s room in
      rw (got.returned, absent) (record { returned = refl; values = got.values; room = got.room })

  -- A refund gives one unit back to a counter that is there, and makes none.
  pub release_metered :
      (z : ℤ) (n : ℕ) (s : S)
      → HasRoom (suc (suc n)) s
      → view s (quota_key c org_id resource) ≡ some (int_text z)
      → Runs view HasRoom
          (release_quota c org_id resource s)
          tt
          (update (view s) (quota_key c org_id resource) (some (int_text (z +ℤ pos 1))))
          n
  unfolding release_quota
  release_metered z n s room metered =
      let key = quota_key c org_id resource in
      let got = laws.obeys.get_lem key (suc n) s room in
      let added =
        laws.obeys.incr_lem key z n (c.get key s).1 got.room (rw (Runs-view got, metered)) in
      rw (got.returned, metered, added.returned)
        (record {
          returned = refl;
          values = λ j.
              added.values j
              ∙ ap (λ w. update w key (some (int_text (z +ℤ pos 1))) j) (Runs-view got);
          room = added.room;
        })

  -- A reservation that is refunded, because the upstream call failed, leaves every counter, the one that it
  -- took from included, as it was.
  pub reserve-release :
      (z : ℤ) (n : ℕ) (s : S)
      → HasRoom (suc (suc (suc (suc (suc n))))) s
      → view s (quota_key c org_id resource) ≡ some (int_text z)
      → has_unit z ≡ true
      → Runs view HasRoom
          (release_quota c org_id resource (reserve_quota c org_id resource s).1)
          tt
          (view s)
          n
  reserve-release z n s room metered left =
      let key = quota_key c org_id resource in
      let took = rw left at (reserve_metered z (suc (suc n)) s room metered) in
      let s1 = (reserve_quota c org_id resource s).1 in
      let back = release_metered (z -ℤ pos 1) n s1 took.room (rw (Runs-view took, eq_refl key)) in
      record {
        returned = back.returned;
        values = λ j.
            back.values j
            ∙ rw (Runs-view took, add_back)
                (update_twice (view s) key _ _ j ∙ update_same (view s) key _ j metered);
        room = back.room;
      }
