-- ===== src/Db/Runner/Settled.antt =====
-- What running the migrations leaves behind, whatever happens.
use schedualerl_lm.Base.{
  String, true, false, Option, none, some, ◌==◌, ◌≡◌, refl, arith, inl, inr, ◌⊎◌, ap, eq_iff,
}
use schedualerl_lm.Config.{DatabaseSettings, async_url}
use schedualerl_lm.Db.Runner.{
  Database, Process, Alembic, same_revision, set_database, get_url, run_migrations_online,
  check_head, run_migrations,
}
use schedualerl_lm.Python.Result.{Exn, Result, ok, err, Result-cases}

same_revision-eq : (a b : Option String) → same_revision a b ≡ true → a ≡ b
same_revision-eq none none h = refl
same_revision-eq (some a) (some b) h = ap some ((eq_iff a b).0 h)
same_revision-eq none (some b) h = cc
same_revision-eq (some a) none h = cc

module _ (alembic : Alembic) (db : DatabaseSettings) (w : Process) where
  abbrev url : String
  url = async_url alembic.show_number db

  -- Either the upgrade fails and nothing changed, or the migrated database is stored and checked.
  abbrev IsSettled : Result (Unit {0}) × Process → Type 0
  IsSettled r =
      ((e : Exn) × (r ≡ (err e, w)))
      ⊎ ((d : Database) × (alembic.connect_to_migrate url ≡ ok tt)
          × (alembic.context_run_migrations (w.databases url) ≡ ok d)
          × (r ≡ (check_head alembic db (set_database url d w), set_database url d w)))

  pub run_migrations-migrated :
      (d : Database)
      → alembic.connect_to_migrate url ≡ ok tt
      → alembic.context_run_migrations (w.databases url) ≡ ok d
      → run_migrations alembic db w
        ≡ (check_head alembic db (set_database url d w), set_database url d w)
  unfolding run_migrations run_migrations_online get_url
  run_migrations-migrated d connected migrated_to = rw (connected, migrated_to) refl

  run_migrations-IsSettled : IsSettled (run_migrations alembic db w)
  unfolding run_migrations run_migrations_online get_url
  run_migrations-IsSettled = elim (Result-cases (alembic.connect_to_migrate url)) [
    | inl (e, refused) ↦ inl (e, rw refused refl)
    | inr (_, connected) ↦ elim (Result-cases (alembic.context_run_migrations (w.databases url))) [
      | inl (e, failed) ↦ inl (e, rw (connected, failed) refl)
      | inr (d, migrated_to) ↦
          inr (d, connected, migrated_to, run_migrations-migrated d connected migrated_to)
    ]
  ]

  check_head-current :
      (v : Process)
      → check_head alembic db v ≡ ok tt
      → (v.databases url).version ≡ alembic.current_head
  check_head-current v h = elim (Result-cases (alembic.connect_to_read url)) [
    | inl (e, refused) ↦ absurd (ground arith)
    | inr (_, connected) ↦
        same_revision-eq (v.databases url).version alembic.current_head (ground arith)
  ]

  -- Whatever Alembic and the connections do, running the migrations with some database settings
  -- puts the override of the settings back, changes no database but the one at the settings' URL,
  -- and fails unless the revision of that database is then the head.
  pub run_migrations-Keeps :
      (other_url : String)
      → (other_url == url) ≡ false
      → ((run_migrations alembic db w).1.override ≡ w.override)
        × ((run_migrations alembic db w).1.databases other_url ≡ w.databases other_url)
        × (((e : Exn) × ((run_migrations alembic db w).0 ≡ err e))
            ⊎ (((run_migrations alembic db w).1.databases url).version ≡ alembic.current_head))
  run_migrations-Keeps other_url apart = elim run_migrations-IsSettled [
    | inl (e, settled) ↦ rw settled (refl, refl, inl (e, refl))
    | inr (d, _, _, settled) ↦
        rw (settled, apart)
          (
            refl,
            refl,
            elim (Result-cases (check_head alembic db (set_database url d w))) [
              | inl (e, failed) ↦ inl (e, failed)
              | inr (_, checked) ↦ inr (check_head-current (set_database url d w) checked)
            ],
          )
  ]
