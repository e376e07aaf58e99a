-- ===== src/Db/Engine.antt =====
-- app/db/engine.py: connecting to the database, with retries. The driver, and which exceptions are of
-- the classes that the code names, are an interface; waiting and logging are left out.
pub mod Connecting
use schedualerl_lm.Base.{ℕ, zero, suc, ◌-◌, String, Bool, ◌<>◌, if◌then◌else◌}
use schedualerl_lm.Base.Int.{ℤ, pos, negsuc}
use schedualerl_lm.Config.{DatabaseSettings}
use schedualerl_lm.Python.Result.{Exn, Result, ok, err, database_connection_error, ◌>>=◌}

pub record Driver : Type 1 where
  pub Connection : Type 0
  -- `asyncpg.connect(...)`, the attempt of that number
  pub connect : ℕ → Result Connection
  -- an `OSError`, `asyncio.TimeoutError`, `asyncpg.PostgresError` or `SQLAlchemyError`
  pub is_connection_error : Exn → Bool
  -- `SELECT 1`
  pub select_one : Connection → Result (Unit {0})
  pub show_number : ℤ → String

-- The attempts that may follow the first, under `stop_after_attempt`.
abbrev pub more_attempts : ℤ → ℕ
more_attempts (pos n) = n - 1
more_attempts (negsuc n) = 0

-- `_raise_connection_error`
abbrev pub connection_failure : (ℤ → String) → DatabaseSettings → Exn
connection_failure show_number settings = database_connection_error (
    "Failed to connect to PostgreSQL at "
    <> (settings.host <> (":" <> (show_number settings.port <> ("/" <> settings.name)))))

module _ (driver : Driver) (settings : DatabaseSettings) where
  -- The outcome of the attempt of that number: it is tried again after a connection error, as long as
  -- there are attempts left.
  unfoldable pub attempt : ℕ → ℕ → Result driver.Connection
  attempt zero n = elim (driver.connect n) [
    | ok connection ↦ ok connection
    | err e ↦
        if driver.is_connection_error e
        then err (connection_failure driver.show_number settings)
        else err e
  ]
  attempt (suc more) n =
      let again = attempt more (suc n) in
      elim (driver.connect n) [
        | ok connection ↦ ok connection
        | err e ↦ if driver.is_connection_error e then again else err e
      ]

  -- `async_creator` of `make_async_creator`
  unfoldable pub async_creator : Result driver.Connection
  unfolding attempt
  async_creator = attempt (more_attempts settings.connect_retries) 0

-- The size of the pool, and how many connections it may open beyond it.
pub record Pool : Type 0 where
  pub pool_size : ℕ
  pub max_overflow : ℕ

-- The engine of `create_db`; natural numbers are what its settings mean.
abbrev pub engine_pool : DatabaseSettings → Pool
engine_pool settings = record {
  pool_size = settings.min_pool_size;
  max_overflow = settings.max_pool_size - settings.min_pool_size;
}

-- `create_db`: one connection is tried before the engine is handed out.
unfoldable pub create_db : Driver → DatabaseSettings → Result Pool
unfolding async_creator
create_db driver settings = do
  connection ← async_creator driver settings
  selected ← driver.select_one connection
  ok (engine_pool settings)
