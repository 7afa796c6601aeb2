-- ===== src/V1Store/Keys.antt =====
-- The keys of `V1Store` that different methods use are different keys.
use omnibioai_api_gateway.Prelude.{ℕ, ◌≡◌, refl, ap, ◌∙◌, String, true, false, ◌==◌}
use omnibioai_api_gateway.Redis.{Commands}
use omnibioai_api_gateway.Text.{
  ◌^^◌, begins_with, after_prefix, followed_by, append-followed_by, eq-append, ne_of_prefix,
}
use omnibioai_api_gateway.V1Store.{prefix, rate_key, concurrency_key, quota_key, idem_key}

-- A key of one family, by its name.
abbrev key_in : String → String → String
key_in family rest = prefix ^^ family ^^ rest

key_in-followed_by :
    (family rest : String) → key_in family rest ≡ followed_by prefix (followed_by family rest)
key_in-followed_by family rest =
    append-followed_by prefix (family ^^ rest)
    ∙ ap (followed_by prefix) (append-followed_by family rest)

-- Keys of two families differ, by a start that one has and the other has not.
apart :
    (start f g a b : String)
    → begins_with (followed_by prefix (followed_by g b)) start ≡ true
    → begins_with (followed_by prefix (followed_by f a)) start ≡ false
    → (key_in f a == key_in g b) ≡ false
apart start f g a b here there =
    rw (key_in-followed_by f a, key_in-followed_by g b)
      (ne_of_prefix start (followed_by prefix (followed_by g b))
        (followed_by prefix (followed_by f a)) here there)

module _ {S : Type 0} (c : Commands S) where
  pub rate_ne_concurrency : (a b : String) → (rate_key c a == concurrency_key c b) ≡ false
  unfolding begins_with after_prefix rate_key concurrency_key
  rate_ne_concurrency a b = apart "gateway:v1:c" "rltb:" "conc:" a b refl refl

  pub rate_ne_quota :
      (a org_id resource : String) → (rate_key c a == quota_key c org_id resource) ≡ false
  unfolding begins_with after_prefix rate_key quota_key
  rate_ne_quota a org_id resource =
      apart "gateway:v1:q" "rltb:" "quota:" a (org_id ^^ ":" ^^ resource) refl refl

  pub concurrency_ne_quota :
      (a org_id resource : String) → (concurrency_key c a == quota_key c org_id resource) ≡ false
  unfolding begins_with after_prefix concurrency_key quota_key
  concurrency_ne_quota a org_id resource =
      apart "gateway:v1:q" "conc:" "quota:" a (org_id ^^ ":" ^^ resource) refl refl

  pub quota_ne_concurrency :
      (org_id resource b : String) → (quota_key c org_id resource == concurrency_key c b) ≡ false
  unfolding begins_with after_prefix concurrency_key quota_key
  quota_ne_concurrency org_id resource b =
      apart "gateway:v1:c" "quota:" "conc:" (org_id ^^ ":" ^^ resource) b refl refl

  -- Two subjects have two counters of requests in flight.
  pub concurrency_ne_concurrency :
      (a b : String) → (a == b) ≡ false → (concurrency_key c a == concurrency_key c b) ≡ false
  unfolding concurrency_key
  concurrency_ne_concurrency a b h =
      eq-append prefix ("conc:" ^^ a) ("conc:" ^^ b) (eq-append "conc:" a b h)

  module _ (sha : String → String) (ttl : ℕ) (subject key : String) where
    pub idem_ne_concurrency :
        (b : String) → (idem_key c sha ttl subject key == concurrency_key c b) ≡ false
    unfolding begins_with after_prefix idem_key concurrency_key
    idem_ne_concurrency b =
        apart "gateway:v1:c" "idem:" "conc:" (subject ^^ ":" ^^ sha key) b refl refl

    pub concurrency_ne_idem :
        (b : String) → (concurrency_key c b == idem_key c sha ttl subject key) ≡ false
    unfolding begins_with after_prefix idem_key concurrency_key
    concurrency_ne_idem b =
        apart "gateway:v1:i" "conc:" "idem:" b (subject ^^ ":" ^^ sha key) refl refl

    pub idem_ne_quota :
        (org_id resource : String)
        → (idem_key c sha ttl subject key == quota_key c org_id resource) ≡ false
    unfolding begins_with after_prefix idem_key quota_key
    idem_ne_quota org_id resource =
        apart "gateway:v1:q" "idem:" "quota:" (subject ^^ ":" ^^ sha key)
          (org_id ^^ ":" ^^ resource) refl refl

    pub rate_ne_idem : (a : String) → (rate_key c a == idem_key c sha ttl subject key) ≡ false
    unfolding begins_with after_prefix idem_key rate_key
    rate_ne_idem a = apart "gateway:v1:i" "rltb:" "idem:" a (subject ^^ ":" ^^ sha key) refl refl
