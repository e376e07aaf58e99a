-- ===== src/Db/Schema/Reversal.antt =====
-- A downgrade takes back what the upgrade did.
use schedualerl_lm.Base.{
  String, false, List, [], ◌∷◌, ◌++◌, ◌≡◌, refl, ap, sym, ◌∙◌, any, find, ◌==◌, some, find_All, All,
  inl, inr,
}
use schedualerl_lm.Db.Schema.Catalog.{Catalog, Statement, apply, run, no_objects}
use schedualerl_lm.Db.Schema.Frame.{touches}
use schedualerl_lm.Db.Schema.Head.{revisions, run-no_objects, extend-no_objects}
use schedualerl_lm.Db.Schema.Revisions.{Revision, initial}
use schedualerl_lm.Db.Schema.Revisions.ScheduledTasks.{add_scheduled_tasks}
use schedualerl_lm.Db.Schema.Revisions.TaskHistory.{add_task_history}
use schedualerl_lm.Python.Result.{ok, ◌>>=◌, Result-cases}

abbrev IsReversed : Revision → Type 0
IsReversed r =
    (c : Catalog)
    → any (touches c) (r.upgrade ++ r.downgrade) ≡ false
    → run (r.upgrade ++ r.downgrade) c ≡ ok c

revisions-IsReversed : All IsReversed revisions
unfolding run apply
revisions-IsReversed =
    (back initial refl, (back add_scheduled_tasks refl, (back add_task_history refl, tt)))
  where
    back : (r : Revision) → run (r.upgrade ++ r.downgrade) no_objects ≡ ok no_objects → IsReversed r
    back r e c h =
        run-no_objects c (r.upgrade ++ r.downgrade) h ∙ rw e (ap ok (extend-no_objects c))

run-append : (os ps : List Statement) (c : Catalog) → run (os ++ ps) c ≡ (run os c >>= run ps)
unfolding run
run-append [] ps c = refl
run-append (o ∷ os) ps c = elim (Result-cases (apply o c)) [
  | inl (e, failed) ↦ rw failed refl
  | inr (d, changed) ↦ rw changed (run-append os ps d)
]

-- Downgrading a revision right after upgrading to it succeeds and gives the catalog that was there
-- before, with everything in it, for every revision of the repository and every catalog that knows
-- none of the names that the revision's statements use.
pub upgrade-downgrade :
    (name : String) (r : Revision) (c : Catalog)
    → find (λ (q : Revision). q.revision == name) revisions ≡ some r
    → any (touches c) (r.upgrade ++ r.downgrade) ≡ false
    → (run r.upgrade c >>= run r.downgrade) ≡ ok c
upgrade-downgrade name r c found new =
    sym (run-append r.upgrade r.downgrade c)
    ∙ find_All IsReversed (λ (q : Revision). q.revision == name) revisions r revisions-IsReversed
        found c new
