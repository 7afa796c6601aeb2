-- ===== src/V1Store/Down.antt =====
-- `V1Store` on a store that cannot be reached: every command raises, and every method lets the call through.
use omnibioai_api_gateway.Prelude.{
  ℕ, ◌≡◌, String, Bool, true, false, Option, none, some, is_some, if◌then◌else◌, Bool-cases,
  Option-cases, inl, inr,
}
use omnibioai_api_gateway.Prelude.Int.{ℤ}
use omnibioai_api_gateway.Json.{Json}
use omnibioai_api_gateway.Exec.{Exec, pure, ◌>>=◌, ◌>>◌}
use omnibioai_api_gateway.Redis.{Stored, Commands}
use omnibioai_api_gateway.V1Store.{
  quietly, rate_limit_for_org, read_int, acquire_concurrency_slot, count_in,
  release_concurrency_slot, reserve_quota, count_down, release_quota, quota_key, idempotency_begin,
  idempotency_finish, claim_or_read, new, is_success,
}

-- Every command that begins a method raises, whatever it does to the state.
pub record IsDown {S : Type 0} (c : Commands S) : Type 0 where
  pub get_raises : (k : String) (s : S) → (c.get k s).0 ≡ none
  pub set_raises :
      (k : String) (v : Stored) (nx : Bool) (ex : Option ℕ) (s : S) → (c.set k v nx ex s).0 ≡ none
  pub incr_raises : (k : String) (s : S) → (c.incr k s).0 ≡ none

module _ {S : Type 0} (c : Commands S) where
  -- What is done quietly never raises.
  quietly_returns : {A : Type 0} (m : Exec S A) (s : S) → (quietly c m s).0 ≡ some tt
  quietly_returns m s = elim (Option-cases (m s).0) [
    | inl raised ↦ rw raised
    | inr (a, done) ↦ rw done
  ]

  pub release_slot_returns :
      (subject : String) (s : S) → (release_concurrency_slot c subject s).0 ≡ some tt
  unfolding release_concurrency_slot
  release_slot_returns subject s = quietly_returns (c.decr _) s

  pub release_quota_returns :
      (org_id resource : String) (s : S) → (release_quota c org_id resource s).0 ≡ some tt
  unfolding release_quota
  release_quota_returns org_id resource s =
      let key = quota_key c org_id resource in
      quietly_returns
        (c.get key >>= λ raw. if is_some raw then (c.incr key >> pure tt) else pure tt) s

  pub finish_returns :
      (sha : String → String) (ttl : ℕ) (subject key fingerprint : String) (status : ℕ)
      (body : Json) (s : S)
      → (idempotency_finish c sha ttl subject key fingerprint status body s).0 ≡ some tt
  unfolding idempotency_finish
  finish_returns sha ttl subject key fingerprint status body s =
      elim (Bool-cases (is_success status)) [
        | inl good ↦ rw good (quietly_returns (c.set _ _ false (some ttl)) s)
        | inr bad ↦ rw bad (quietly_returns (c.delete _) s)
      ]

  module _ (down : IsDown c) where
    pub rate_limit_for_org_down :
        (org_id : String) (s : S) → (rate_limit_for_org c org_id s).0 ≡ some none
    unfolding rate_limit_for_org read_int
    rate_limit_for_org_down org_id s = rw down.get_raises

    pub acquire_slot_down :
        (subject : String) (limit : ℤ) (s : S)
        → (acquire_concurrency_slot c subject limit s).0 ≡ some true
    unfolding acquire_concurrency_slot count_in
    acquire_slot_down subject limit s = rw down.incr_raises

    pub reserve_quota_down :
        (org_id resource : String) (s : S) → (reserve_quota c org_id resource s).0 ≡ some true
    unfolding reserve_quota count_down
    reserve_quota_down org_id resource s = rw down.get_raises

    pub idempotency_begin_down :
        (sha : String → String) (ttl : ℕ) (subject key fingerprint : String) (s : S)
        → (idempotency_begin c sha ttl subject key fingerprint s).0 ≡ some new
    unfolding idempotency_begin claim_or_read
    idempotency_begin_down sha ttl subject key fingerprint s = rw down.set_raises
