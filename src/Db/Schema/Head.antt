-- ===== src/Db/Schema/Head.antt =====
-- alembic/versions: the chain of the revisions, and what they leave in the catalog.
use schedualerl_lm.Base.{false, List, [], ◌∷◌, ◌++◌, ◌≡◌, ap, sym, ◌∙◌, any}
use mathlib.Core.List.{append-nil}
use schedualerl_lm.Db.Schema.Catalog.{Catalog, Statement, apply, run, no_objects}
use schedualerl_lm.Db.Schema.Frame.{touches, extend, map_result, run-extend}
use schedualerl_lm.Db.Schema.Revisions.{Revision, initial}
use schedualerl_lm.Db.Schema.Revisions.ScheduledTasks.{add_scheduled_tasks}
use schedualerl_lm.Db.Schema.Revisions.TaskHistory.{add_task_history}
use schedualerl_lm.Python.Result.{Result, ok, err}

-- Each revision's `down_revision` is the one before it.
abbrev pub revisions : List Revision
revisions = initial ∷ add_scheduled_tasks ∷ add_task_history ∷ []

abbrev pub upgrades : List Revision → List Statement
upgrades [] = []
upgrades (r ∷ rs) = r.upgrade ++ upgrades rs

abbrev catalog_of : Result Catalog → Catalog
catalog_of (ok c) = c
catalog_of (err e) = no_objects

pub extend-no_objects : (c : Catalog) → extend c no_objects ≡ c
extend-no_objects c = simp append-nil

-- What statements do to a catalog that knows none of their names, by what they do to an empty one.
pub run-no_objects :
    (c : Catalog) (os : List Statement)
    → any (touches c) os ≡ false
    → run os c ≡ map_result (extend c) (run os no_objects)
run-no_objects c os h = ap (run os) (sym (extend-no_objects c)) ∙ run-extend c os h no_objects

-- What the revisions put into an empty catalog.
unfoldable pub objects_of : List Revision → Catalog
objects_of rs = catalog_of (run (upgrades rs) no_objects)

pub run-upgrades :
    (c : Catalog)
    → any (touches c) (upgrades revisions) ≡ false
    → run (upgrades revisions) c ≡ ok (extend c (objects_of revisions))
unfolding objects_of run apply
run-upgrades c h = run-no_objects c (upgrades revisions) h
