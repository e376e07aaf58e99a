-- ===== src/Routes/Health.antt =====
-- app/routes/health.py
use schedualerl_lm.Base.{ℕ}
use schedualerl_lm.Enums.{HealthStatus}
use schedualerl_lm.Python.Result.{Result, ok, err}

-- `HealthResponse`
pub record HealthResponse : Type 0 where
  pub status : HealthStatus

-- `health`, by what `SELECT 1` did: the response and its status code
abbrev pub health : Result (Unit {0}) → HealthResponse × ℕ
health (ok x) = (record { status = HealthStatus.ok }, 200)
health (err e) = (record { status = HealthStatus.unavailable }, 503)
