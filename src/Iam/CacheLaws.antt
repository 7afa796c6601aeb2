-- ===== src/Iam/CacheLaws.antt =====
-- What IAMClient may rely on in a Redis that is up, through the entries that can be read.
use omnibioai_api_gateway.Prelude.{ℕ, suc, ◌≡◌, String, Option, none, some, ◌==◌, if◌then◌else◌}
use omnibioai_api_gateway.Prelude.Int.{pos}
use omnibioai_api_gateway.Iam.{Cache}

module _ {S : Type 0} (c : Cache S) where
  -- In a store that is up, no command fails, and each leaves it up. `view s k` is the live value of `k`,
  -- with every expiry still ahead.
  pub record CacheLaws : Type 1 where
    pub view : S → String → Option String
    pub IsUp : S → Type 0
    pub get_returns : (k : String) (s : S) → IsUp s → (c.get k s).0 ≡ some (view s k)
    pub get_keeps : (k j : String) (s : S) → IsUp s → view (c.get k s).1 j ≡ view s j
    pub get_up : (k : String) (s : S) → IsUp s → IsUp (c.get k s).1
    pub setex_stores :
        (k : String) (ttl : ℕ) (v : String) (j : String) (s : S)
        → IsUp s
        → view (c.setex k (pos (suc ttl)) v s).1 j ≡ (if k == j then some v else view s j)
    pub setex_up :
        (k : String) (ttl : ℕ) (v : String) (s : S)
        → IsUp s
        → IsUp (c.setex k (pos (suc ttl)) v s).1
    pub delete_removes :
        (k j : String) (s : S)
        → IsUp s
        → view (c.delete k s).1 j ≡ (if k == j then none else view s j)
    pub delete_up : (k : String) (s : S) → IsUp s → IsUp (c.delete k s).1
