-- ===== src/V1Store/Concurrency.antt =====
-- `acquire_concurrency_slot` and `release_concurrency_slot` on a working store.
pub mod Concurrent
mod Examples
use omnibioai_api_gateway.Prelude.{
  ℕ, suc, String, ◌≡◌, refl, ap, ◌∙◌, Bool, true, false, not, Option, none, some, arith, Bool-cases,
  inl, inr, ◌==◌, eq_iff, eq_refl, if◌then◌else◌,
}
use omnibioai_api_gateway.Prelude.Int.{ℤ, pos, ltb_ℤ, ◌+ℤ◌, ◌-ℤ◌, int_laws}
use omnibioai_api_gateway.Redis.{Stored, int_text, Commands, parse_int_or_zero}
use omnibioai_api_gateway.Redis.Laws.{View, update, update_twice, Runs, CommandLaws, Runs-view}
use omnibioai_api_gateway.V1Store.{
  concurrency_key, count_in, acquire_concurrency_slot, release_concurrency_slot,
}

pub sub_back : (z : ℤ) → z +ℤ pos 1 -ℤ pos 1 ≡ z
sub_back z = omega int_laws

-- Whether one more request fits, with `z` in flight.
abbrev pub has_slot : ℤ → ℤ → Bool
has_slot limit z = not (ltb_ℤ limit (z +ℤ pos 1))

module _ {S : Type 0} (c : Commands S) (laws : CommandLaws c) (subject : String) where
  open laws use {view, HasRoom}

  -- A slot is granted exactly if the requests in flight stay within the limit, and only then counted.
  pub acquire-has_slot :
      (limit z : ℤ) (n : ℕ) (s : S)
      → HasRoom (suc (suc (suc n))) s
      → parse_int_or_zero (view s (concurrency_key c subject)) ≡ some z
      → Runs view HasRoom
          (acquire_concurrency_slot c subject limit s)
          (has_slot limit z)
          (update
            (view s)
            (concurrency_key c subject)
            (some (int_text (if has_slot limit z then z +ℤ pos 1 else z))))
          n
  unfolding acquire_concurrency_slot
  acquire-has_slot limit z n s room parsed =
      let key = concurrency_key c subject in
      let counted = laws.obeys.incr_lem key z (suc (suc n)) s room parsed in
      let s1 = (c.incr key s).1 in
      let kept = laws.obeys.expire_lem key 299 (suc n) s1 counted.room in
      let s2 = (c.expire key 300 s1).1 in
      let back =
        laws.obeys.decr_lem key (z +ℤ pos 1) n s2 kept.room
          (rw (Runs-view kept, Runs-view counted, eq_refl key)) in
      rw (counted.returned, kept.returned)
        (elim (Bool-cases (ltb_ℤ limit (z +ℤ pos 1))) [
          | inl over ↦
              rw (over, back.returned)
                (record {
                  returned = refl;
                  values = λ j.
                      back.values j
                      ∙ rw (Runs-view kept, Runs-view counted, sub_back)
                          (update_twice (view s) key _ _ j);
                  room = back.room;
                })
          | inr within ↦ rw within (record {
            returned = refl;
            values = λ j. kept.values j ∙ counted.values j;
            room = laws.obeys.room_left n s2 kept.room;
          })
        ])

  pub release_lem :
      (z : ℤ) (n : ℕ) (s : S)
      → HasRoom (suc n) s
      → parse_int_or_zero (view s (concurrency_key c subject)) ≡ some z
      → Runs view HasRoom
          (release_concurrency_slot c subject s)
          tt
          (update (view s) (concurrency_key c subject) (some (int_text (z -ℤ pos 1))))
          n
  unfolding release_concurrency_slot
  release_lem z n s room parsed =
      let back = laws.obeys.decr_lem (concurrency_key c subject) z n s room parsed in
      rw back.returned (record { returned = refl; values = back.values; room = back.room })

  -- A granted slot that is released leaves the count as it was.
  pub acquire-release :
      (limit z : ℤ) (n : ℕ) (s : S)
      → HasRoom (suc (suc (suc (suc n)))) s
      → parse_int_or_zero (view s (concurrency_key c subject)) ≡ some z
      → has_slot limit z ≡ true
      → Runs view HasRoom
          (release_concurrency_slot c subject (acquire_concurrency_slot c subject limit s).1)
          tt
          (update (view s) (concurrency_key c subject) (some (int_text z)))
          n
  acquire-release limit z n s room parsed granted =
      let key = concurrency_key c subject in
      let got = rw granted at (acquire-has_slot limit z (suc n) s room parsed) in
      let back =
        release_lem (z +ℤ pos 1) n (acquire_concurrency_slot c subject limit s).1 got.room
          (rw (Runs-view got, eq_refl key)) in
      record {
        returned = back.returned;
        values =
            λ j. back.values j ∙ rw (Runs-view got, sub_back) (update_twice (view s) key _ _ j);
        room = back.room;
      }
