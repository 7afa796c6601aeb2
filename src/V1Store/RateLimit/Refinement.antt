-- ===== src/V1Store/RateLimit/Refinement.antt =====
-- `hit_rate_limit` on a working store is one call of the token bucket; it never raises.
use omnibioai_api_gateway.Prelude.{
  ℕ, suc, String, ◌≡◌, refl, ap, ◌∙◌, true, Option, none, some, false, Option-cases, inl, inr,
}
use omnibioai_api_gateway.Prelude.Int.{ℤ, pos}
use omnibioai_api_gateway.Text.{◌^^◌}
use omnibioai_api_gateway.Redis.{bucket_text, Commands}
use omnibioai_api_gateway.Redis.Laws.{update, Runs, CommandLaws, Runs-view, catch-Runs}
use omnibioai_api_gateway.V1Store.{
  Bucket, Hit, refill, take_token, answer, read_bucket, rate_key, hit_bucket, hit_rate_limit,
  rate_limit_for_org, read_int, prefix,
}

module _ {S : Type 0} (c : Commands S) (laws : CommandLaws c) where
  open laws use {view, HasRoom}

  -- Where the record reads as the bucket `b`, a call answers by its refilled tokens and leaves
  -- what it did not take, at the time of the call. No other key changes.
  pub hit_rate_limit-refill :
      (subject : String) (limit now n : ℕ) (b : Bucket) (s : S)
      → HasRoom (suc (suc n)) s
      → read_bucket (suc limit) now (view s (rate_key c subject)) ≡ some b
      → Runs view HasRoom
          (hit_rate_limit c subject (pos (suc limit)) now s)
          (answer (suc limit) (refill (suc limit) b now))
          (update
            (view s)
            (rate_key c subject)
            (some (bucket_text (take_token (refill (suc limit) b now)) now)))
          n
  unfolding hit_rate_limit
  hit_rate_limit-refill subject limit now n b s room parsed =
      let key = rate_key c subject in
      let left = bucket_text (take_token (refill (suc limit) b now)) now in
      let got = laws.obeys.get_lem key (suc n) s room in
      let wrote = laws.obeys.set_lem key left 119 n (c.get key s).1 got.room in
      catch-Runs (hit_bucket c subject (suc limit) now) _ (
        rw (got.returned, parsed, wrote.returned)
          (record {
            returned = refl;
            values = λ j. wrote.values j ∙ ap (λ w. update w key (some left) j) (Runs-view got);
            room = wrote.room;
          }))

module _ {S : Type 0} (c : Commands S) where
  -- Whatever the commands do, raising included, a call returns an answer: it never raises.
  pub hit_rate_limit_returns :
      (subject : String) (limit : ℤ) (now : ℕ) (s : S)
      → (h : Hit) × ((hit_rate_limit c subject limit now s).0 ≡ some h)
  unfolding hit_rate_limit
  hit_rate_limit_returns subject (pos (suc limit)) now s =
      elim (Option-cases (hit_bucket c subject (suc limit) now s).0) [
        | inl failed ↦ ((true, suc limit, 0), rw failed)
        | inr (h, done) ↦ (h, rw done)
      ]
  hit_rate_limit_returns subject _ now s = ((false, 0, 60), refl)

  -- Where the record cannot be read, a call is allowed, with the whole limit remaining.
  pub hit_rate_limit_fails_open :
      (subject : String) (limit now : ℕ) (s : S)
      → (c.get (rate_key c subject) s).0 ≡ none
      → (hit_rate_limit c subject (pos (suc limit)) now s).0 ≡ some (true, suc limit, 0)
  unfolding hit_rate_limit
  hit_rate_limit_fails_open subject limit now s failed = rw failed

  -- An organization's own limit is read or, where it cannot be, taken as not set.
  pub rate_limit_for_org_returns :
      (org_id : String) (s : S) → (l : Option ℤ) × ((rate_limit_for_org c org_id s).0 ≡ some l)
  unfolding rate_limit_for_org read_int
  rate_limit_for_org_returns org_id s =
      elim (Option-cases (c.get (prefix ^^ "quota:" ^^ org_id ^^ ":ratelimit") s).0) [
        | inl failed ↦ (none, rw failed)
        | inr (raw, got) ↦ rw got (_, refl)
      ]
