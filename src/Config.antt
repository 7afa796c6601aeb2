-- ===== src/Config.antt =====
-- The setting of app/core/config.py that bounds how long an answer is stored, V1_IDEMPOTENCY_TTL. A
-- variable that is not set in the environment is `none`.
pub mod Retention
mod Examples
use omnibioai_api_gateway.Prelude.{ℕ, ◌*◌, ◌==◌, Bool, Option, none, some, if◌then◌else◌}
use omnibioai_api_gateway.Prelude.Int.{ℤ, pos, ltb_ℤ}

-- 30 * 24 * 60 * 60
abbrev pub thirty_days : ℕ
thirty_days = 30 * 24 * 60 * 60

abbrev idempotency_setting : Option ℤ → ℤ
idempotency_setting none = pos 86_400
idempotency_setting (some z) = z

-- V1_IDEMPOTENCY_TTL, from the integer in the environment: its minimum with the bound
unfoldable pub idempotency_ttl : Option ℤ → ℤ
idempotency_ttl raw =
    if ltb_ℤ (pos thirty_days) (idempotency_setting raw)
    then pos thirty_days
    else idempotency_setting raw
