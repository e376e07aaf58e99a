-- ===== src/Db/Session/Rows.antt =====
-- What the statements do to lists of rows.
use schedualerl_lm.Base.{◌≡◌, refl, Bool, true, false, List, [], ◌∷◌, ◌++◌, filter, All, arith}
use schedualerl_lm.Db.Session.{update_rows}
use schedualerl_lm.Db.Models.{ScheduledTask}

module _ {ℓ} {A : Type ℓ} where
  pub filter-append :
      (q : A → Bool) (xs ys : List A) → filter q (xs ++ ys) ≡ filter q xs ++ filter q ys
  filter-append q [] ys = refl
  filter-append q (x ∷ xs) ys = ground (arith, filter-append q xs ys)

  -- A row that fails the test adds nothing behind.
  pub filter-append_false :
      (q : A → Bool) (xs : List A) (x : A) → q x ≡ false → filter q (xs ++ x ∷ []) ≡ filter q xs
  filter-append_false q [] x h = ground arith
  filter-append_false q (y ∷ xs) x h = ground (arith, filter-append_false q xs x h)

  -- Rows that are taken out leave the rows of a disjoint test.
  pub filter-filter_disjoint :
      (q p : A → Bool)
      → ((x : A) → q x ≡ true → p x ≡ true)
      → (xs : List A) → filter q (filter p xs) ≡ filter q xs
  filter-filter_disjoint q p h [] = refl
  filter-filter_disjoint q p h (x ∷ xs) = ground (arith, h x, filter-filter_disjoint q p h xs)

-- Rows that change leave the rows of a disjoint test.
pub filter-update_rows :
    (q p : ScheduledTask → Bool) (f : ScheduledTask → ScheduledTask)
    → ((t : ScheduledTask) → p t ≡ true → q t ≡ false)
    → ((t : ScheduledTask) → p t ≡ true → q (f t) ≡ false)
    → (xs : List ScheduledTask) → filter q (update_rows p f xs) ≡ filter q xs
filter-update_rows q p f h k [] = refl
filter-update_rows q p f h k (x ∷ xs) = ground (arith, h x, k x, filter-update_rows q p f h k xs)

pub All-update_rows :
    (P : ScheduledTask → Type 0) (p : ScheduledTask → Bool) (f : ScheduledTask → ScheduledTask)
    → ((t : ScheduledTask) → P t → P (f t))
    → (xs : List ScheduledTask) → All P xs
    → All P (update_rows p f xs)
All-update_rows P p f h [] a = tt
All-update_rows P p f h (x ∷ xs) a = ground (arith, h x a.0, All-update_rows P p f h xs a.1)
