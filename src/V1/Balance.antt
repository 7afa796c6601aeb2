-- ===== src/V1/Balance.antt =====
-- The three counters that a billable call moves, the quota and the requests in flight of the caller and of
-- its organization, on a store that stays up: what app/routes/v1.py does to them step by step.
pub mod Steps
use omnibioai_api_gateway.Prelude.{
  ℕ, suc, ◌≡◌, refl, ◌∙◌, String, Bool, true, false, Option, none, some, Bool-cases, Option-cases,
  inl, inr, ◌==◌, eq_refl, eq_iff, if◌then◌else◌, arith,
}
use omnibioai_api_gateway.Prelude.Int.{ℤ, pos, ◌+ℤ◌, ◌-ℤ◌, int_laws}
use omnibioai_api_gateway.Text.{◌^^◌}
use omnibioai_api_gateway.Exec.{Exec, pure, ◌>>=◌, ◌>>◌}
use omnibioai_api_gateway.Exec.Keeps.{Keeps, bind-Keeps}
use omnibioai_api_gateway.Redis.{Stored, int_text, Commands, parse_int_or_zero}
use omnibioai_api_gateway.Redis.Laws.{update, Runs}
use omnibioai_api_gateway.Redis.Steady.{Steady, Leaves, steady_laws, ignored-Leaves}
use omnibioai_api_gateway.V1Store.{
  rate_key, idem_key, quota_key, concurrency_key, acquire_concurrency_slot,
  release_concurrency_slot, reserve_quota, release_quota, hit_rate_limit, rate_limit_for_org,
}
use omnibioai_api_gateway.V1Store.Keys.{
  rate_ne_concurrency, rate_ne_quota, concurrency_ne_quota, quota_ne_concurrency,
  concurrency_ne_concurrency, idem_ne_concurrency, idem_ne_quota,
}
use omnibioai_api_gateway.V1Store.Quota.{
  has_unit, reserve_unmetered, reserve_metered, release_metered,
}
use omnibioai_api_gateway.V1Store.Concurrency.{has_slot, acquire-has_slot, release_lem}

-- What is stored for an organization that is not metered, or that has so many units left.
abbrev pub meter : Option ℤ → Option Stored
meter none = none
meter (some z) = some (int_text z)

-- Whether a unit can be taken, and what is left then.
abbrev pub can_take : Option ℤ → Bool
can_take none = true
can_take (some z) = has_unit z

abbrev pub taken : Option ℤ → Option ℤ
taken none = none
taken (some z) = some (z -ℤ pos 1)

abbrev pub org_subject : String → String
org_subject org_id = "org:" ^^ org_id

module _ {S : Type 0} {c : Commands S} (store : Steady c) (subject org_id resource : String) where
  -- The store is up, the quota stands at `q`, and `a` and `b` requests are in flight for the caller and
  -- for its organization.
  pub record Holds (q : Option ℤ) (a b : ℤ) (s : S) : Type 0 where
    pub up : store.IsUp s
    pub quota : store.view s (quota_key c org_id resource) ≡ meter q
    pub mine : parse_int_or_zero (store.view s (concurrency_key c subject)) ≡ some a
    pub ours : parse_int_or_zero (store.view s (concurrency_key c (org_subject org_id))) ≡ some b

  other-Leaves :
      (q : Option ℤ) (a b : ℤ) (k : String)
      → (k == quota_key c org_id resource) ≡ false
      → ((x : String) → (k == concurrency_key c x) ≡ false)
      → Leaves c (Holds q a b) k
  other-Leaves q a b k not_quota not_slots =
      ignored-Leaves store (Holds q a b) k (λ s h. h.up)
        (λ s t h up same. record {
          up = up;
          quota = rw (same _ not_quota) h.quota;
          mine = rw (same _ (not_slots subject)) h.mine;
          ours = rw (same _ (not_slots (org_subject org_id))) h.ours;
        })

  pub rate-Leaves : (q : Option ℤ) (a b : ℤ) (x : String) → Leaves c (Holds q a b) (rate_key c x)
  rate-Leaves q a b x =
      other-Leaves q a b (rate_key c x) (rate_ne_quota c x org_id resource)
        (rate_ne_concurrency c x)

  pub idem-Leaves :
      (q : Option ℤ) (a b : ℤ) (sha : String → String) (ttl : ℕ) (key : String)
      → Leaves c (Holds q a b) (idem_key c sha ttl subject key)
  idem-Leaves q a b sha ttl key =
      other-Leaves q a b (idem_key c sha ttl subject key)
        (idem_ne_quota c sha ttl subject key org_id resource)
        (idem_ne_concurrency c sha ttl subject key)

  -- What a step that wrote one of the three counters has made of them.
  pub quota-Holds :
      {A : Type 0} {q : Option ℤ} {a b z : ℤ} {s : S} {x : Option A × S} {r : A} {n : ℕ}
      → Holds q a b s
      → Runs store.view
          (λ _. store.IsUp)
          x
          r
          (update (store.view s) (quota_key c org_id resource) (some (int_text z)))
          n
      → Holds (some z) a b x.1
  quota-Holds h run = record {
    up = run.room;
    quota = run.values _ ∙ rw (eq_refl (quota_key c org_id resource));
    mine = rw (run.values _, quota_ne_concurrency c org_id resource subject) h.mine;
    ours = rw (run.values _, quota_ne_concurrency c org_id resource (org_subject org_id)) h.ours;
  }

  pub same-Holds :
      {A : Type 0} {q : Option ℤ} {a b : ℤ} {s : S} {x : Option A × S} {r : A} {n : ℕ}
      → Holds q a b s
      → Runs store.view (λ _. store.IsUp) x r (store.view s) n
      → Holds q a b x.1
  same-Holds h run = record {
    up = run.room;
    quota = run.values _ ∙ h.quota;
    mine = rw (run.values _) h.mine;
    ours = rw (run.values _) h.ours;
  }

  module _ (distinct : (subject == org_subject org_id) ≡ false) where
    pub mine-Holds :
        {A : Type 0} {q : Option ℤ} {a b z : ℤ} {s : S} {x : Option A × S} {r : A} {n : ℕ}
        → Holds q a b s
        → Runs store.view
            (λ _. store.IsUp)
            x
            r
            (update (store.view s) (concurrency_key c subject) (some (int_text z)))
            n
        → Holds q z b x.1
    mine-Holds h run = record {
      up = run.room;
      quota = run.values _ ∙ rw (concurrency_ne_quota c subject org_id resource) h.quota;
      mine = rw (run.values _, eq_refl (concurrency_key c subject));
      ours =
          rw (run.values _, concurrency_ne_concurrency c subject (org_subject org_id) distinct)
            h.ours;
    }

    pub ours-Holds :
        {A : Type 0} {q : Option ℤ} {a b z : ℤ} {s : S} {x : Option A × S} {r : A} {n : ℕ}
        → Holds q a b s
        → Runs store.view
            (λ _. store.IsUp)
            x
            r
            (update (store.view s) (concurrency_key c (org_subject org_id)) (some (int_text z)))
            n
        → Holds q a z x.1
    ours-Holds h run = record {
      up = run.room;
      quota =
          run.values _ ∙ rw (concurrency_ne_quota c (org_subject org_id) org_id resource) h.quota;
      mine =
          rw
            (
              run.values _,
              concurrency_ne_concurrency c (org_subject org_id) subject (
                  ground (
                    arith,
                    eq_iff subject (org_subject org_id),
                    eq_iff (org_subject org_id) subject,
                  )),
            )
            h.mine;
      ours = rw (run.values _, eq_refl (concurrency_key c (org_subject org_id)));
    }
