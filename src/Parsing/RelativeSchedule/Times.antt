-- ===== src/Parsing/RelativeSchedule/Times.antt =====
-- The time of day that a phrase names is one of the 24-hour clock.
use schedualerl_lm.Base.{
  ℕ, ◌≤◌, String, Option, none, some, List, [], ◌∷◌, inl, inr, Option-cases, Bool-cases, All, arith,
  leb, get_or,
}
use schedualerl_lm.Parsing.RelativeSchedule.{
  time_of_day, at_time_pattern, default_hour_minute, valid_time, keyword_time, keyword_pattern,
  clock_hour, digits_value, parse_at_time, parse_time_of_day,
}
use schedualerl_lm.Python.Regex.{re_search, match_group}
use schedualerl_lm.Python.Unicode.{Text, Unicode, codes}

-- A time of the 24-hour clock.
abbrev pub IsTime : ℕ × ℕ → Type 0
IsTime (h, m) = (h ≤ 23) × (m ≤ 59)

abbrev IsMaybeTime : Option (ℕ × ℕ) → Type 0
IsMaybeTime none = Unit
IsMaybeTime (some time) = IsTime time

valid_time-IsTime : (u : Unicode) (h m : ℕ) → IsMaybeTime (valid_time u h m)
valid_time-IsTime u h m = elim (Bool-cases (leb h 23)) [
  | inl hour_fits ↦ elim (Bool-cases (leb m 59)) [
    | inl minute_fits ↦ rw (hour_fits, minute_fits) (ground arith)
    | inr too_late ↦ rw (hour_fits, too_late) tt
  ]
  | inr too_late ↦ rw too_late tt
]

parse_at_time-IsTime : (u : Unicode) (text : Text) → IsMaybeTime (parse_at_time u text)
unfolding parse_at_time
parse_at_time-IsTime u text = elim (Option-cases (re_search u (at_time_pattern u) text)) [
  | inl missing ↦ rw (missing, parse_at_time) tt
  | inr (s, found) ↦
      rw (found, parse_at_time)
        (valid_time-IsTime u
          (clock_hour u (digits_value u (get_or (match_group 1 s) []) 0)
            (u.lower (get_or (match_group 3 s) [])))
          (digits_value u (get_or (match_group 2 s) (codes "0")) 0))
]

keyword_time-IsTime :
    (u : Unicode) (table : List (String × (ℕ × ℕ))) (lowered : Text)
    → All (λ entry. IsTime entry.1) table
    → IsMaybeTime (keyword_time u table lowered)
keyword_time-IsTime u [] lowered h = tt
keyword_time-IsTime u ((keyword, time) ∷ rest) lowered h =
    elim (Option-cases (re_search u (keyword_pattern u keyword) lowered)) [
      | inl missing ↦ rw (missing, keyword_time) (keyword_time-IsTime u rest lowered h.1)
      | inr (s, found) ↦ rw (found, keyword_time) h.0
    ]

parse_time_of_day-IsTime : (u : Unicode) (text : Text) → IsMaybeTime (parse_time_of_day u text)
unfolding parse_time_of_day
parse_time_of_day-IsTime u text =
    let keyword = keyword_time-IsTime u time_of_day (u.lower text) (ground arith) in
    elim (Option-cases (keyword_time u time_of_day (u.lower text))) [
      | inl missing ↦ rw (missing, parse_time_of_day) (parse_at_time-IsTime u text)
      | inr (time, found) ↦ rw (found, parse_time_of_day) (rw found at keyword)
    ]

or_default-IsTime : (o : Option (ℕ × ℕ)) → IsMaybeTime o → IsTime (get_or o default_hour_minute)
or_default-IsTime none h = ground arith
or_default-IsTime (some time) h = h

pub hour_minute-IsTime :
    (u : Unicode) (text : Text) → IsTime (get_or (parse_time_of_day u text) default_hour_minute)
hour_minute-IsTime u text =
    or_default-IsTime (parse_time_of_day u text) (parse_time_of_day-IsTime u text)
