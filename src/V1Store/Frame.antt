-- ===== src/V1Store/Frame.antt =====
-- What the methods of `V1Store` keep: a property that the commands on their one key keep.
use omnibioai_api_gateway.Prelude.{
  ℕ, zero, suc, String, true, false, none, some, if◌then◌else◌, is_some, Bool-cases, Option-cases,
  inl, inr,
}
use omnibioai_api_gateway.Prelude.Int.{ℤ, pos, negsuc, ltb_ℤ}
use omnibioai_api_gateway.Json.{Json}
use omnibioai_api_gateway.Exec.{Exec, pure, or_raise, catch, ◌>>=◌, ◌>>◌}
use omnibioai_api_gateway.Exec.Keeps.{Keeps, bind-Keeps, bind-after, catch-Keeps}
use omnibioai_api_gateway.Redis.{Commands}
use omnibioai_api_gateway.Redis.Steady.{Leaves}
use omnibioai_api_gateway.V1Store.{
  rate_key, hit_bucket, hit_rate_limit, read_int, rate_limit_for_org, read_bucket, idem_key,
  claim_or_read, idempotency_begin, idempotency_finish, is_success, quietly, concurrency_key,
  quota_key, acquire_concurrency_slot, release_concurrency_slot, reserve_quota, release_quota,
  count_down, count_in,
}

module _ {S : Type 0} (c : Commands S) (P : S → Type 0) where
  pub hit_rate_limit-Keeps :
      (subject : String) (limit : ℤ) (now : ℕ)
      → Leaves c P (rate_key c subject)
      → Keeps P (hit_rate_limit c subject limit now)
  unfolding hit_rate_limit hit_bucket
  hit_rate_limit-Keeps subject (pos zero) now kept s h = h
  hit_rate_limit-Keeps subject (negsuc n) now kept s h = h
  hit_rate_limit-Keeps subject (pos (suc n)) now kept s h =
      catch-Keeps P (hit_bucket c subject (suc n) now) _
        (bind-Keeps P (c.get (rate_key c subject)) _ (kept.get_kept _) (λ raw.
          bind-Keeps P (or_raise (read_bucket (suc n) now raw)) _ (λ s h. h)
            (λ bucket.
              bind-Keeps P (c.set (rate_key c subject) _ false (some 120)) _
                (kept.set_kept _ false (some 120)) (λ done s h. h))))
        (λ s h. h) s h

  pub rate_limit_for_org-Keeps :
      (org_id : String) → ((j : String) → Keeps P (c.get j)) → Keeps P (rate_limit_for_org c org_id)
  unfolding rate_limit_for_org read_int
  rate_limit_for_org-Keeps org_id reads =
      catch-Keeps P (c.get _ >>= _) _ (bind-Keeps P (c.get _) _ (reads _) (λ raw s h. h)) (λ s h. h)

  quietly-Keeps : {A : Type 0} (m : Exec S A) → Keeps P m → Keeps P (quietly c m)
  quietly-Keeps m kept =
      catch-Keeps P (m >> pure tt) _ (bind-Keeps P m _ kept (λ done s h. h)) (λ s h. h)

  module _ (subject : String) (kept : Leaves c P (concurrency_key c subject)) where
    pub acquire_concurrency_slot-Keeps :
        (limit : ℤ) → Keeps P (acquire_concurrency_slot c subject limit)
    unfolding acquire_concurrency_slot count_in
    acquire_concurrency_slot-Keeps limit s h =
        let key = concurrency_key c subject in
        let count = c.incr key >>= λ n. c.expire key 300 >> pure (some n) in
        bind-after P (catch count (pure none)) _ s
          (catch-Keeps P count (pure none)
            (bind-Keeps P (c.incr key) _ kept.incr_kept
              (λ n. bind-Keeps P (c.expire key 300) _ (kept.expire_kept 300) (λ done s h. h)))
            (λ s h. h) s h)
          (λ counted t same. elim (Option-cases counted) [
            | inl failed ↦ rw failed same
            | inr (n, there) ↦ elim (Bool-cases (ltb_ℤ limit n)) [
              | inl over ↦
                  rw (there, over)
                    (bind-Keeps P (quietly c (c.decr key)) (λ _. pure false)
                      (quietly-Keeps (c.decr key) kept.decr_kept) (λ done s h. h) t same)
              | inr within ↦ rw (there, within) same
            ]
          ])

    pub release_concurrency_slot-Keeps : Keeps P (release_concurrency_slot c subject)
    unfolding release_concurrency_slot
    release_concurrency_slot-Keeps = quietly-Keeps (c.decr _) kept.decr_kept

  module _ (org_id resource : String) (kept : Leaves c P (quota_key c org_id resource)) where
    count_down-Keeps : Keeps P (count_down c (quota_key c org_id resource))
    unfolding count_down
    count_down-Keeps =
        let key = quota_key c org_id resource in
        bind-Keeps P (c.get key)
          (λ raw. if is_some raw then (c.decr key >>= λ n. pure (some n)) else pure none)
          (kept.get_kept key)
          (λ raw t same. elim (Option-cases raw) [
            | inl missing ↦ rw missing same
            | inr (v, there) ↦
                rw there (
                  bind-Keeps P (c.decr key) (λ n. pure (some n)) kept.decr_kept (λ n s h. h) t same)
          ])

    pub reserve_quota-Keeps : Keeps P (reserve_quota c org_id resource)
    unfolding reserve_quota
    reserve_quota-Keeps s h =
        let key = quota_key c org_id resource in
        bind-after P (catch (count_down c key) (pure none)) _ s
          (catch-Keeps P (count_down c key) (pure none) count_down-Keeps (λ s h. h) s h)
          (λ counted t same. elim (Option-cases counted) [
            | inl failed ↦ rw failed same
            | inr (n, there) ↦ elim (Bool-cases (ltb_ℤ n (pos 0))) [
              | inl spent ↦
                  rw (there, spent)
                    (bind-Keeps P (quietly c (c.incr key)) (λ _. pure false)
                      (quietly-Keeps (c.incr key) kept.incr_kept) (λ done s h. h) t same)
              | inr left ↦ rw (there, left) same
            ]
          ])

    pub release_quota-Keeps : Keeps P (release_quota c org_id resource)
    unfolding release_quota
    release_quota-Keeps =
        let key = quota_key c org_id resource in
        quietly-Keeps _ (
          bind-Keeps P (c.get key) (λ raw. if is_some raw then (c.incr key >> pure tt) else pure tt)
            (kept.get_kept key)
            (λ raw t same. elim (Option-cases raw) [
              | inl missing ↦ rw missing same
              | inr (v, there) ↦
                  rw there
                    (bind-Keeps P (c.incr key) (λ n. pure tt) kept.incr_kept (λ n s h. h) t same)
            ]))

  module _ (sha : String → String) (ttl : ℕ) (subject key : String)
      (kept : Leaves c P (idem_key c sha ttl subject key)) where
    claim_or_read-Keeps :
        (fingerprint : String)
        → Keeps P (claim_or_read c sha ttl (idem_key c sha ttl subject key) fingerprint)
    unfolding claim_or_read
    claim_or_read-Keeps fingerprint =
        let k = idem_key c sha ttl subject key in
        bind-Keeps P (c.set k _ true (some 120))
          (λ claimed. if claimed then pure none else (c.get k >>= λ raw. pure (some raw)))
          (kept.set_kept _ true (some 120))
          (λ claimed s h. elim (Bool-cases claimed) [
            | inl first ↦ rw first h
            | inr taken ↦ rw taken (
                bind-Keeps P (c.get k) (λ raw. pure (some raw)) (kept.get_kept k) (λ raw s h. h) s
                  h)
          ])

    pub idempotency_begin-Keeps :
        (fingerprint : String) → Keeps P (idempotency_begin c sha ttl subject key fingerprint)
    unfolding idempotency_begin
    idempotency_begin-Keeps fingerprint s h =
        let try_it = claim_or_read c sha ttl (idem_key c sha ttl subject key) fingerprint in
        bind-after P (catch try_it (pure none)) _ s
          (catch-Keeps P try_it (pure none) (claim_or_read-Keeps fingerprint) (λ s h. h) s h)
          (λ found s h. elim (Option-cases found) [
            | inl first ↦ rw first h
            | inr (raw, there) ↦ rw there h
          ])

    pub idempotency_finish-Keeps :
        (fingerprint : String) (status : ℕ) (body : Json)
        → Keeps P (idempotency_finish c sha ttl subject key fingerprint status body)
    unfolding idempotency_finish
    idempotency_finish-Keeps fingerprint status body s h = elim (Bool-cases (is_success status)) [
      | inl good ↦
          rw good
            (quietly-Keeps (c.set _ _ false (some ttl)) (kept.set_kept _ false (some ttl)) s h)
      | inr bad ↦ rw bad (quietly-Keeps (c.delete _) kept.delete_kept s h)
    ]
