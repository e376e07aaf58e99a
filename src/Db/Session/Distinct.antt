-- ===== src/Db/Session/Distinct.antt =====
-- The primary key of `scheduled_tasks`: no two rows have the same id, whatever is written.
use mathlib.Core.Path.{subst}
use schedualerl_lm.Base.{
  ◌≡◌, refl, String, Bool, true, false, Option, none, some, List, [], ◌∷◌, ◌++◌, eqb, eqb_iff, find,
  filter, All, arith, Bool-cases, inl, inr,
}
use schedualerl_lm.Db.Models.{ScheduledTask}
use schedualerl_lm.Db.Session.{update_rows, set_row}
use schedualerl_lm.Db.Session.AllRows.{has_id}
use schedualerl_lm.Db.Session.User.{owned}
use schedualerl_lm.Python.Datetime.{Datetime}
use schedualerl_lm.Python.Platform.{Uuid}

abbrev pub AreDistinct : List ScheduledTask → Type 0
AreDistinct [] = Unit
AreDistinct (x ∷ xs) = (find (has_id x.id) xs ≡ none) × AreDistinct xs

-- Every row with that id is the user's.
abbrev pub IsSole : String → Uuid → ScheduledTask → Type 0
IsSole u id x = eqb x.id id ≡ true → owned u id x ≡ true

module _ (p : ScheduledTask → Bool) (active : Bool) (next : Option Datetime) (now : Datetime) where
  find-update_rows :
      (id : Uuid) (xs : List ScheduledTask)
      → find (has_id id) xs ≡ none
      → find (has_id id) (update_rows p (set_row active next now) xs) ≡ none
  find-update_rows id [] h = refl
  find-update_rows id (x ∷ xs) h = ground (arith, find-update_rows id xs)

  pub update_rows-AreDistinct :
      (xs : List ScheduledTask)
      → AreDistinct xs
      → AreDistinct (update_rows p (set_row active next now) xs)
  update_rows-AreDistinct [] h = tt
  update_rows-AreDistinct (x ∷ xs) h = elim (Bool-cases (p x)) [
    | inl changed ↦ rw changed (find-update_rows x.id xs h.0, update_rows-AreDistinct xs h.1)
    | inr kept ↦ rw kept (find-update_rows x.id xs h.0, update_rows-AreDistinct xs h.1)
  ]

module _ (p : ScheduledTask → Bool) where
  find-filter :
      (id : Uuid) (xs : List ScheduledTask)
      → find (has_id id) xs ≡ none
      → find (has_id id) (filter p xs) ≡ none
  find-filter id [] h = refl
  find-filter id (x ∷ xs) h = ground (arith, find-filter id xs)

  pub filter-AreDistinct : (xs : List ScheduledTask) → AreDistinct xs → AreDistinct (filter p xs)
  filter-AreDistinct [] h = tt
  filter-AreDistinct (x ∷ xs) h = elim (Bool-cases (p x)) [
    | inl kept ↦ rw kept (find-filter x.id xs h.0, filter-AreDistinct xs h.1)
    | inr dropped ↦ rw dropped (filter-AreDistinct xs h.1)
  ]

find-append :
    (id : Uuid) (task : ScheduledTask) (xs : List ScheduledTask)
    → find (has_id id) xs ≡ none
    → eqb task.id id ≡ false
    → find (has_id id) (xs ++ task ∷ []) ≡ none
find-append id task [] h k = ground arith
find-append id task (x ∷ xs) h k = ground (arith, find-append id task xs)

pub append-AreDistinct :
    (task : ScheduledTask) (xs : List ScheduledTask)
    → find (has_id task.id) xs ≡ none
    → AreDistinct xs
    → AreDistinct (xs ++ task ∷ [])
append-AreDistinct task [] fresh h = (refl, tt)
append-AreDistinct task (x ∷ xs) fresh h =
    (find-append x.id task xs h.0 (ground arith), append-AreDistinct task xs (ground arith) h.1)

none-IsSole :
    (u : String) (id : Uuid) (xs : List ScheduledTask)
    → find (has_id id) xs ≡ none
    → All (IsSole u id) xs
none-IsSole u id [] h = tt
none-IsSole u id (x ∷ xs) h = ((λ same. ground arith), none-IsSole u id xs (ground arith))

-- Of a row that is there, no other row has the id.
there :
    (u : String) (id : Uuid) (xs : List ScheduledTask) (task : ScheduledTask)
    → find (owned u id) xs ≡ some task
    → find (has_id id) xs ≡ none
    → ⊥
there u id [] task found h = cc
there u id (x ∷ xs) task found h = ground (arith, there u id xs task)

only_one :
    (x : ScheduledTask) (id : Uuid) (xs : List ScheduledTask)
    → find (has_id x.id) xs ≡ none
    → eqb x.id id ≡ true
    → find (has_id id) xs ≡ none
only_one x id xs h same = subst (λ k. find (has_id k) xs ≡ none) ((eqb_iff x.id id).0 same) h

pub found-IsSole :
    (u : String) (id : Uuid) (xs : List ScheduledTask) (task : ScheduledTask)
    → AreDistinct xs
    → find (owned u id) xs ≡ some task
    → All (IsSole u id) xs
found-IsSole u id [] task h found = tt
found-IsSole u id (x ∷ xs) task h found = elim (Bool-cases (owned u id x)) [
  | inl mine ↦
      let same : eqb x.id id ≡ true = ground arith in
      ((λ e. mine), none-IsSole u id xs (only_one x id xs h.0 same))
  | inr other ↦
      let later : find (owned u id) xs ≡ some task = ground arith in
      (
        (λ same. absurd (there u id xs task later (only_one x id xs h.0 same))),
        found-IsSole u id xs task h.1 later,
      )
]
