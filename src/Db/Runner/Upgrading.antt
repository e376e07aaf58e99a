-- ===== src/Db/Runner/Upgrading.antt =====
-- Running the migrations brings a database at any revision to the head.
use schedualerl_lm.Base.{
  ℕ, zero, suc, String, false, Option, none, some, List, [], ◌∷◌, ◌==◌, ◌≡◌, refl, ◌∙◌, arith, any,
  take, drop, ap, if◌then◌else◌, eq_refl,
}
use schedualerl_lm.Config.{DatabaseSettings, async_url}
use schedualerl_lm.Db.Runner.{Database, Process, Alembic, run_migrations}
use schedualerl_lm.Db.Runner.Settled.{run_migrations-migrated}
use schedualerl_lm.Db.Schema.Catalog.{Catalog, run, apply}
use schedualerl_lm.Db.Schema.Frame.{touches, extend, run-extend}
use schedualerl_lm.Db.Schema.Head.{revisions, upgrades, objects_of}
use schedualerl_lm.Db.Schema.Revisions.{Revision}
use schedualerl_lm.Python.Result.{Result, ok, err, other, ◌>>=◌}

-- The revisions after the one of that name.
abbrev pub pending : Option String → List Revision → Option (List Revision)
pending none rs = some rs
pending (some v) [] = none
pending (some v) (r ∷ rs) = if r.revision == v then some rs else pending (some v) rs

abbrev pub last_revision : Option String → List Revision → Option String
last_revision v [] = v
last_revision v (r ∷ rs) = last_revision (some r.revision) rs

abbrev upgraded_by : Database → Option (List Revision) → Result Database
upgraded_by d none = err (other "Can't locate revision")
upgraded_by d (some todo) = run (upgrades todo) d.catalog >>= λ c.
    ok (record { version = last_revision d.version todo; catalog = c })

-- What Alembic documents of `upgrade head`: the upgrades of the revisions that the database does not
-- have yet, in their order and in one transaction, and the last of them as its revision.
abbrev pub upgraded : Database → Result Database
upgraded d = upgraded_by d (pending d.version revisions)

pub record IsDocumented (alembic : Alembic) : Type 0 where
  pub context_run_migrations_lem : (d : Database) → alembic.context_run_migrations d ≡ upgraded d
  pub current_head_lem : alembic.current_head ≡ last_revision none revisions

-- The database has the first `n` revisions, beside the objects of `c`.
pub record IsAt (n : ℕ) (c : Catalog) (d : Database) : Type 0 where
  pub version_lem : d.version ≡ last_revision none (take n revisions)
  pub catalog_lem : d.catalog ≡ extend c (objects_of (take n revisions))

module _ (c : Catalog) (new : any (touches c) (upgrades revisions) ≡ false) where
  abbrev at : ℕ → Database
  at n = record {
    version = last_revision none (take n revisions);
    catalog = extend c (objects_of (take n revisions));
  }

  upgraded_by-extend :
      (v : Option String) (todo : List Revision) (e e' : Catalog)
      → any (touches c) (upgrades todo) ≡ false
      → run (upgrades todo) e ≡ ok e'
      → upgraded_by (record { version = v; catalog = extend c e }) (some todo)
        ≡ ok (record { version = last_revision v todo; catalog = extend c e' })
  upgraded_by-extend v todo e e' foreign done =
      rw (run-extend c (upgrades todo) foreign e, done) refl

  upgraded-at : (n : ℕ) → upgraded (at n) ≡ ok (at 3)
  unfolding objects_of run apply
  upgraded-at zero =
      upgraded_by-extend none revisions (objects_of []) (objects_of revisions) new refl
  upgraded-at (suc zero) =
      upgraded_by-extend (at 1).version (drop 1 revisions) (objects_of (take 1 revisions))
        (objects_of revisions) new refl
  upgraded-at (suc (suc zero)) =
      upgraded_by-extend (at 2).version (drop 2 revisions) (objects_of (take 2 revisions))
        (objects_of revisions) (ground arith) refl
  upgraded-at (suc (suc (suc zero))) =
      upgraded_by-extend (at 3).version [] (objects_of revisions) (objects_of revisions) refl refl
  upgraded-at (suc (suc (suc (suc n)))) =
      upgraded_by-extend (at 3).version [] (objects_of revisions) (objects_of revisions) refl refl

  upgraded-IsAt : (n : ℕ) (d : Database) → IsAt n c d → upgraded d ≡ ok (at 3)
  upgraded-IsAt n d here =
      let same : d ≡ at n =
        λ i. record { version = here.version_lem i; catalog = here.catalog_lem i } in
      ap upgraded same ∙ upgraded-at n

module _ (alembic : Alembic) (db : DatabaseSettings) (w : Process) (c : Catalog) (n : ℕ) where
  abbrev url : String
  url = async_url alembic.show_number db

  -- Running the migrations succeeds on a database that any number of the revisions were applied
  -- to, none included, and leaves it with all three revisions, beside what else was in it, and
  -- with the last one as its revision. What else is in it knows none of the names of the
  -- migrations, the database can be connected to both times, and Alembic does what it documents of
  -- `upgrade head`, with all or nothing of it done, and of the head.
  pub run_migrations-IsAt :
      any (touches c) (upgrades revisions) ≡ false
      → IsAt n c (w.databases url)
      → alembic.connect_to_migrate url ≡ ok tt
      → alembic.connect_to_read url ≡ ok tt
      → IsDocumented alembic
      → ((run_migrations alembic db w).0 ≡ ok tt)
        × IsAt 3 c ((run_migrations alembic db w).1.databases url)
  run_migrations-IsAt new before connected read documented =
      let to_head : alembic.context_run_migrations (w.databases url) ≡ ok (at c new 3) =
        documented.context_run_migrations_lem (w.databases url)
        ∙ upgraded-IsAt c new n (w.databases url) before in
      rw
        (
          run_migrations-migrated alembic db w (at c new 3) connected to_head,
          read,
          documented.current_head_lem,
          eq_refl url,
        )
        (refl, record { version_lem = refl; catalog_lem = refl })
