-- ===== src/Redis/Steady/Table.antt =====
-- A store that is its values, and in which no time passes: the least one that is up for ever.
use omnibioai_api_gateway.Prelude.{
  ℕ, ◌≡◌, refl, String, Bool, true, false, Option, none, some, ◌==◌, if◌then◌else◌, is_some,
}
use omnibioai_api_gateway.Prelude.Int.{ℤ, pos, ◌+ℤ◌, ◌-ℤ◌}
use omnibioai_api_gateway.Exec.{Exec}
use omnibioai_api_gateway.Redis.{Stored, int_text, Commands, parse_int_or_zero}
use omnibioai_api_gateway.Redis.Laws.{View, update, Runs}
use omnibioai_api_gateway.Redis.Steady.{Steady}

-- INCR and DECR, by what the text stands for.
abbrev pub step_from : (ℤ → ℤ) → String → Option ℤ → Exec View ℤ
step_from f k none s = (none, s)
step_from f k (some z) s = (some (f z), update s k (some (int_text (f z))))

abbrev pub set_if : Bool → String → Stored → Exec View Bool
set_if true k v s = (some true, update s k (some v))
set_if false k v s = (some false, s)

abbrev pub free_or_overwrite : Bool → Bool → Bool
free_or_overwrite true taken = if taken then false else true
free_or_overwrite false taken = true

abbrev pub table_commands : Commands View
table_commands = record {
  get = λ k s. (some (s k), s);
  set = λ k v nx ex s. set_if (free_or_overwrite nx (is_some (s k))) k v s;
  incr = λ k s. step_from (λ z. z +ℤ pos 1) k (parse_int_or_zero (s k)) s;
  decr = λ k s. step_from (λ z. z -ℤ pos 1) k (parse_int_or_zero (s k)) s;
  expire = λ k ttl s. (some (is_some (s k)), s);
  delete = λ k s. (some tt, update s k none);
}

abbrev pub itself : View → View
itself s = s

abbrev pub Always : View → Type 0
Always s = Unit

module _ (k : String) where
  pub step_from-same :
      (f : ℤ → ℤ) (z : Option ℤ) (s : View) (j : String)
      → (k == j) ≡ false
      → (step_from f k z s).1 j ≡ s j
  step_from-same f none s j e = refl
  step_from-same f (some z) s j e = rw e

  pub set_if-same :
      (write : Bool) (v : Stored) (s : View) (j : String)
      → (k == j) ≡ false
      → (set_if write k v s).1 j ≡ s j
  set_if-same true v s j e = rw e
  set_if-same false v s j e = refl

  pub table-Runs :
      {A : Type 0} {x : Option A × View} {a : A} {after : View} (n : ℕ)
      → x ≡ (some a, after)
      → Runs itself (λ _. Always) x a after n
  table-Runs n e = rw e (record { returned = refl; values = λ j. refl; room = tt })

unfoldable pub table_steady : Steady table_commands
table_steady = record {
  view = itself;
  IsUp = Always;
  obeys = record {
    room_left = λ n s h. tt;
    get_lem = λ k n s h. table-Runs k n refl;
    set_lem = λ k v ttl n s h. table-Runs k n refl;
    set_nx_absent = λ k v ttl n s h e. table-Runs k n (rw e);
    set_nx_present = λ k v w ttl n s h e. table-Runs k n (rw e);
    incr_lem = λ k z n s h e. table-Runs k n (rw e);
    decr_lem = λ k z n s h e. table-Runs k n (rw e);
    expire_lem = λ k ttl n s h. table-Runs k n refl;
    delete_lem = λ k n s h. table-Runs k n refl;
  };
  set_only = λ k v nx ex. record {
    up = λ s h. tt;
    others = λ s j h e. set_if-same k (free_or_overwrite nx (is_some (s k))) v s j e;
  };
  incr_only = λ k. record {
    up = λ s h. tt;
    others = λ s j h e. step_from-same k (λ z. z +ℤ pos 1) (parse_int_or_zero (s k)) s j e;
  };
  decr_only = λ k. record {
    up = λ s h. tt;
    others = λ s j h e. step_from-same k (λ z. z -ℤ pos 1) (parse_int_or_zero (s k)) s j e;
  };
  expire_only = λ k ttl. record { up = λ s h. tt; others = λ s j h e. refl };
  delete_only = λ k. record { up = λ s h. tt; others = λ s j h e. rw e };
}
