-- ===== src/Db/Runner.antt =====
-- app/db/migrations.py and alembic/env.py: running the migrations on a database. Alembic, what the
-- environment sets, and connecting are an interface. The offline mode, which prints the statements,
-- and the logging configuration are left out.
pub mod Settled
pub mod Upgrading
use schedualerl_lm.Base.{
  String, Bool, true, false, Option, none, some, List, [], ◌∷◌, ◌==◌, if◌then◌else◌,
}
use schedualerl_lm.Base.Int.{ℤ}
use schedualerl_lm.Config.{DatabaseSettings, async_url}
use schedualerl_lm.Db.Schema.Catalog.{Catalog}
use schedualerl_lm.Python.Result.{Result, ok, err, assertion_error, ◌>>=◌}

-- A database with the revision in its table `alembic_version`.
pub record Database : Type 0 where
  pub version : Option String
  pub catalog : Catalog

-- The context variable `_db_settings_override`, and the databases by their URLs.
pub record Process : Type 0 where
  pub override : Option DatabaseSettings
  pub databases : String → Database

pub record Alembic : Type 0 where
  -- an integer in an f-string
  pub show_number : ℤ → String
  -- `DatabaseSettings()`, from the environment
  pub environment : Result DatabaseSettings
  -- `connectable.connect()` in env.py and `engine.connect()` in migrations.py
  pub connect_to_migrate : String → Result (Unit {0})
  pub connect_to_read : String → Result (Unit {0})
  -- `context.run_migrations()` under the command `upgrade head`, in its transaction
  pub context_run_migrations : Database → Result Database
  -- `ScriptDirectory.get_current_head()`
  pub current_head : Option String

abbrev pub same_revision : Option String → Option String → Bool
same_revision none none = true
same_revision (some r) (some s) = r == s
same_revision _ _ = false

abbrev pub set_database : String → Database → Process → Process
set_database url d w = record w { databases = λ u. if u == url then d else w.databases u }

module _ (alembic : Alembic) where
  -- `get_url`
  unfoldable pub get_url : Process → Result String
  get_url w = elim w.override [
    | some db ↦ ok (async_url alembic.show_number db)
    | none ↦ alembic.environment >>= λ db. ok (async_url alembic.show_number db)
  ]

  -- What `run_async_migrations` leaves in the database that it connects to.
  abbrev pub migrated : Process → Result (String × Database)
  migrated w = do
    url ← get_url w
    _ ← alembic.connect_to_migrate url
    d ← alembic.context_run_migrations (w.databases url)
    ok (url, d)

  abbrev pub store : Process → Result (String × Database) → Result (Unit {0}) × Process
  store w (ok (url, d)) = (ok tt, set_database url d w)
  store w (err e) = (err e, w)

  -- `run_migrations_online`, which `command.upgrade(cfg, "head")` runs
  unfoldable pub run_migrations_online : Process → Result (Unit {0}) × Process
  unfolding get_url
  run_migrations_online w = store w (migrated w)

  -- `use_db_settings` around a block, whether it raises or not
  abbrev pub use_db_settings :
      {A : Type 0}
      → DatabaseSettings
      → (Process → Result A × Process)
      → Process
      → Result A × Process
  use_db_settings db body w =
      let r = body (record w { override = some db }) in (r.0, record r.1 { override = w.override })

  -- `get_current_revision`
  abbrev pub get_current_revision : String → Process → Result (Option String)
  get_current_revision url w = alembic.connect_to_read url >>= λ _. ok ((w.databases url).version)

  -- What `run_migrations` does after the upgrade.
  abbrev pub check_head : DatabaseSettings → Process → Result (Unit {0})
  check_head db w = do
    current ← get_current_revision (async_url alembic.show_number db) w
    if same_revision current alembic.current_head then ok tt else err assertion_error

  abbrev pub after_upgrade :
      DatabaseSettings → Result (Unit {0}) × Process → Result (Unit {0}) × Process
  after_upgrade db (err e, w) = (err e, w)
  after_upgrade db (ok _, w) = (check_head db w, w)

  -- `run_migrations`, up to its `yield`
  unfoldable pub run_migrations : DatabaseSettings → Process → Result (Unit {0}) × Process
  unfolding run_migrations_online
  run_migrations db w = after_upgrade db (use_db_settings db run_migrations_online w)
