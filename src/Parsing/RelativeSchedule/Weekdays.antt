-- ===== src/Parsing/RelativeSchedule/Weekdays.antt =====
-- The weekday that a phrase names, and the days to it.
use schedualerl_lm.Base.{
  ℕ, ◌+◌, ◌%◌, ◌≤◌, ◌≡◌, ap, sym, String, some, List, [], ◌∷◌, inl, inr, Bool-cases, All, arith,
  get_or,
}
use schedualerl_lm.Parsing.RelativeSchedule.{weekday_names, text_entry, days_ahead}
use schedualerl_lm.Python.Datetime.{Datetime, weekday}
use schedualerl_lm.Python.Unicode.{Text, codes, same_text}

-- The days to the next such weekday.
pub days_ahead_lem :
    (target today : ℕ)
    → target ≤ 6
    → today ≤ 6
    → (1 ≤ days_ahead target today)
      × (days_ahead target today ≤ 7)
      × ((today + days_ahead target today) % 7 ≡ target)
unfolding days_ahead
days_ahead_lem target today t n = ground arith

entry_lem :
    (table : List (String × ℕ)) (name : Text) (target : ℕ)
    → All (λ entry. entry.1 ≤ 6) table
    → text_entry table name ≡ some target
    → target ≤ 6
entry_lem [] name target a h = cc
entry_lem ((key, n) ∷ rest) name target a h = elim (Bool-cases (same_text (codes key) name)) [
  | inl same ↦
      let e : some n ≡ some target = rw same at h in rw (sym (ap (λ o. get_or o target) e)) a.0
  | inr differs ↦ entry_lem rest name target a.1 (rw differs at h)
]

pub weekday_lem : (d : Datetime) → weekday d ≤ 6
unfolding weekday
weekday_lem d = ground arith

-- The weekday of a text, of one that the pattern of the weekdays gives.
pub entry-weekday_names :
    (name : Text) (target : ℕ) → text_entry weekday_names name ≡ some target → target ≤ 6
entry-weekday_names name target h = entry_lem weekday_names name target (ground arith) h

pub later_day :
    (today later days target : ℕ)
    → 1 ≤ days
    → days ≤ 7
    → (today % 7 + days) % 7 ≡ target
    → later ≡ today + days
    → (later % 7 ≡ target) × (today + 1 ≤ later) × (later ≤ today + 7)
later_day today later days target a b t e = ground arith
