-- ===== src/Parsing/RelativeSchedule.antt =====
-- app/parsing/relative_schedule.py: phrases such as `in two hours` or `next friday at 5pm`, which need
-- no language model.
mod Tables
mod Patterns
pub mod Times
pub mod Weekdays
pub mod Ahead
pub use Tables.*
pub use Patterns.*
use schedualerl_lm.Base.{
  ℕ, suc, ◌+◌, ◌-◌, ◌*◌, ◌%◌, ◌≤◌, String, Bool, true, false, ◌&&◌, Option, none, some, List, [],
  ◌∷◌, length, leb, ltb, eqb, get_or, if◌then◌else◌,
}
use schedualerl_lm.Python.Datetime.{
  Datetime, Zones, second, minute, hour, day, weekday, replace_time,
}
use schedualerl_lm.Python.Regex.{
  Regex, one, repeat, boundary, seq, optional, group, alt, any_of, word, literal, re_search, Place,
  match_group,
}
use schedualerl_lm.Python.Result.{Result, ok, err, key_error, value_error, ◌>>=◌}
use schedualerl_lm.Python.Timedelta.{plus, localize}
use schedualerl_lm.Python.Unicode.{Text, Unicode, codes, same_text, in_range}
use schedualerl_lm.Schemas.Tasks.{StructuredTriggerSpec, once_trigger}

module _ (u : Unicode) where
  -- `int(text)` of a text of digits: Python refuses more than 4300 of them.
  abbrev pub digits_value : Text → ℕ → ℕ
  digits_value [] n = n
  digits_value (c ∷ cs) n = digits_value cs (n * 10 + u.digit_value c)

  unfoldable pub int_of : Text → Result ℕ
  int_of t =
      if leb (length t) 4300
      then ok (digits_value t 0)
      else err (value_error "Exceeds the limit (4300 digits) for integer string conversion")

  -- `text.isdigit()`, of a group that is letters or digits
  abbrev pub isdigit : Text → Bool
  isdigit [] = false
  isdigit (c ∷ []) = u.is_digit c
  isdigit (c ∷ cs) = u.is_digit c && isdigit cs

  -- The hour by the 24-hour clock: `match meridiem`.
  abbrev pub clock_hour : ℕ → Text → ℕ
  clock_hour h meridiem =
      if same_text (codes "pm") meridiem
      then (if eqb h 12 then h else h + 12)
      else if same_text (codes "am") meridiem
      then (if eqb h 12 then 0 else h)
      else h

  abbrev pub valid_time : ℕ → ℕ → Option (ℕ × ℕ)
  valid_time h m = if leb h 23 && leb m 59 then some (h, m) else none

  -- `_parse_at_time`
  abbrev at_time_of : Place → Option (ℕ × ℕ)
  at_time_of s =
      valid_time
        (clock_hour (digits_value (get_or (match_group 1 s) []) 0)
          (u.lower (get_or (match_group 3 s) [])))
        (digits_value (get_or (match_group 2 s) (codes "0")) 0)

  unfoldable pub parse_at_time : Text → Option (ℕ × ℕ)
  parse_at_time text = elim (re_search u (at_time_pattern u) text) [
    | none ↦ none
    | some s ↦ at_time_of s
  ]

  abbrev pub keyword_pattern : String → Regex
  keyword_pattern keyword = seq boundary (seq (literal u (codes keyword)) boundary)

  -- The first keyword of a dict that stands in the text as a word.
  abbrev pub keyword_time : List (String × (ℕ × ℕ)) → Text → Option (ℕ × ℕ)
  keyword_time [] lowered = none
  keyword_time ((keyword, time) ∷ rest) lowered =
      elim (re_search u (keyword_pattern keyword) lowered) [
        | some s ↦ some time
        | none ↦ keyword_time rest lowered
      ]

  -- `_parse_time_of_day`
  unfoldable pub parse_time_of_day : Text → Option (ℕ × ℕ)
  parse_time_of_day text = elim (keyword_time time_of_day (u.lower text)) [
    | some time ↦ some time
    | none ↦ parse_at_time text
  ]

-- `_apply_time`
abbrev pub apply_time : Datetime → ℕ × ℕ → Datetime
apply_time base (h, m) = replace_time base h m

-- `days_ahead`: 7 for the same weekday.
unfoldable pub days_ahead : ℕ → ℕ → ℕ
days_ahead target today = if ltb today target then target - today else target + 7 - today

module _ (u : Unicode) (zones : Zones) where
  abbrev pub amount_of : Text → Result (Option ℕ)
  amount_of raw =
      if isdigit u raw then (do n ← int_of u raw; ok (some n)) else ok (text_entry word_numbers raw)

  abbrev pub once_after : Datetime → ℕ → Result (Option StructuredTriggerSpec)
  once_after localized delta = do run_at ← plus localized delta; ok (some (once_trigger run_at))

  abbrev pub in_amount : Datetime → Option ℕ → Option ℕ → Result (Option StructuredTriggerSpec)
  in_amount localized (some amount) (some length) = once_after localized (amount * length)
  in_amount localized _ _ = ok none

  -- The branch of `in_match`.
  unfoldable pub in_duration : Datetime → Place → Result (Option StructuredTriggerSpec)
  in_duration localized s = do
    amount ← amount_of (u.lower (get_or (match_group 1 s) []))
    in_amount localized amount (text_entry unit_lengths (u.lower (get_or (match_group 2 s) [])))

  -- So many days ahead, at the time of day that the text names.
  unfoldable pub on_day : Text → Datetime → ℕ → Result (Option StructuredTriggerSpec)
  on_day text localized days = do
    target ← plus localized (days * day)
    ok (
        some (
          once_trigger (apply_time target (get_or (parse_time_of_day u text) default_hour_minute))))

  -- The branch of `next_weekday_match`.
  unfoldable pub on_weekday : Text → Datetime → Place → Result (Option StructuredTriggerSpec)
  unfolding on_day days_ahead
  on_weekday text localized s =
      elim (text_entry weekday_names (u.lower (get_or (match_group 1 s) []))) [
        | none ↦ err (key_error "weekday")
        | some target ↦ on_day text localized (days_ahead target (weekday localized))
      ]

  -- What follows `_localize`.
  unfoldable pub once_schedule : Text → Datetime → Result (Option StructuredTriggerSpec)
  unfolding in_duration on_day on_weekday
  once_schedule text localized = elim (re_search u (in_duration_pattern u) text) [
    | some s ↦ in_duration localized s
    | none ↦ elim (re_search u (tomorrow_pattern u) text) [
      | some s ↦ on_day text localized 1
      | none ↦ elim (re_search u (next_weekday_pattern u) text) [
        | some s ↦ on_weekday text localized s
        | none ↦ ok none
      ]
    ]
  ]

  -- `try_parse_once_schedule`
  unfoldable pub try_parse_once_schedule :
      Text → Datetime → String → Result (Option StructuredTriggerSpec)
  unfolding once_schedule localize
  try_parse_once_schedule text now timezone = elim (re_search u (recurring_pattern u) text) [
    | some s ↦ ok none
    | none ↦ do localized ← localize zones now timezone; once_schedule text localized
  ]
