-- ===== src/Parsing/RelativeSchedule/Ahead.antt =====
-- Where the time of a phrase lies: never before now on the wall clock, and on the day that it names.
use schedualerl_lm.Base.{
  ℕ, ◌+◌, ◌*◌, ◌/◌, ◌≤◌, ◌<◌, ◌≡◌, String, Option, none, some, [], inl, inr, Option-cases, arith,
  get_or,
}
use schedualerl_lm.Parsing.RelativeSchedule.{
  default_hour_minute, weekday_names, text_entry, parse_time_of_day, apply_time, days_ahead,
  in_duration_pattern, tomorrow_pattern, next_weekday_pattern, recurring_pattern, amount_of,
  unit_lengths, once_after, in_amount, in_duration, on_day, on_weekday, once_schedule,
  try_parse_once_schedule,
}
use schedualerl_lm.Python.Datetime.{
  Datetime, Zones, day, hour, minute, max_days, weekday, replace_time,
}
use schedualerl_lm.Python.Regex.{Place, re_search, match_group}
use schedualerl_lm.Python.Result.{Result, ok, err, key_error, >>=-eq-ok}
use schedualerl_lm.Python.Timedelta.{plus, localize}
use schedualerl_lm.Python.Unicode.{Text, Unicode}
use schedualerl_lm.Schemas.Tasks.{StructuredTriggerSpec, once_trigger}
use schedualerl_lm.Parsing.RelativeSchedule.Times.{IsTime, hour_minute-IsTime}
use schedualerl_lm.Parsing.RelativeSchedule.Weekdays.{
  days_ahead_lem, weekday_lem, later_day, entry-weekday_names,
}

-- A datetime of a phrase: in the zone of `from`, in Python's years, and not before it on the wall clock.
pub record IsAhead (from run_at : Datetime) : Type 0 where
  pub same_zone : run_at.tzinfo ≡ from.tzinfo
  pub in_years : run_at.wall < max_days * day
  pub not_before : from.wall ≤ run_at.wall

plus-IsAhead :
    (d r : Datetime) (delta : ℕ) → plus d delta ≡ ok r → IsAhead d r × (r.wall ≡ d.wall + delta)
unfolding plus
plus-IsAhead d r delta h = ground arith

-- The day number of a datetime.
abbrev pub day_of : Datetime → ℕ
day_of d = d.wall / day

-- A time of day on a later day, on the wall clock.
later_wall :
    (w t h m days : ℕ)
    → h ≤ 23
    → m ≤ 59
    → 1 ≤ days
    → t < max_days * day
    → t ≡ w + days * day
    → (t / day * day + h * hour + m * minute < max_days * day)
      × (w ≤ t / day * day + h * hour + m * minute)
      × ((t / day * day + h * hour + m * minute) / day ≡ w / day + days)
later_wall w t h m days hh hm hd ht e = ground arith

apply_time_lem :
    (from target : Datetime) (time : ℕ × ℕ) (days : ℕ)
    → IsTime time
    → 1 ≤ days
    → IsAhead from target
    → target.wall ≡ from.wall + days * day
    → IsAhead from (apply_time target time) × (day_of (apply_time target time) ≡ day_of from + days)
unfolding replace_time
apply_time_lem from target (h, m) days t d a e =
    let later = later_wall from.wall target.wall h m days t.0 t.1 d a.in_years e in
    (record { same_zone = a.same_zone; in_years = later.0; not_before = later.1 }, later.2)

-- A text that names a time of day on a later day gives it, on that day.
pub on_day_lem :
    (u : Unicode) (zones : Zones) (text : Text) (from : Datetime) (days : ℕ)
    (spec : StructuredTriggerSpec)
    → 1 ≤ days
    → on_day u zones text from days ≡ ok (some spec)
    → (run_at : Datetime) × (spec ≡ once_trigger run_at)
      × IsAhead from run_at
      × (day_of run_at ≡ day_of from + days)
unfolding on_day
on_day_lem u zones text from days spec d h =
    let time = get_or (parse_time_of_day u text) default_hour_minute in
    let (target, added, e) =
      >>=-eq-ok (plus from (days * day)) (λ t. ok (some (once_trigger (apply_time t time)))) h in
    let sum = plus-IsAhead from target (days * day) added in
    let (ahead, on) =
      apply_time_lem from target time days (hour_minute-IsTime u text) d sum.0 sum.1 in
    (apply_time target time, cc, ahead, on)

-- A result that, when it is a trigger, is a once trigger ahead of a datetime.
abbrev IsOnceAhead : Datetime → StructuredTriggerSpec → Type 0
IsOnceAhead from spec = (run_at : Datetime) × (spec ≡ once_trigger run_at) × IsAhead from run_at

once_after_lem :
    (u : Unicode) (zones : Zones) (from : Datetime) (delta : ℕ) (spec : StructuredTriggerSpec)
    → once_after u zones from delta ≡ ok (some spec)
    → IsOnceAhead from spec
once_after_lem u zones from delta spec h =
    let (run_at, added, e) = >>=-eq-ok (plus from delta) (λ t. ok (some (once_trigger t))) h in
    (run_at, cc, (plus-IsAhead from run_at delta added).0)

in_amount_lem :
    (u : Unicode) (zones : Zones) (from : Datetime) (amount length : Option ℕ)
    (spec : StructuredTriggerSpec)
    → in_amount u zones from amount length ≡ ok (some spec)
    → IsOnceAhead from spec
in_amount_lem u zones from none length spec h = cc
in_amount_lem u zones from (some n) none spec h = cc
in_amount_lem u zones from (some n) (some k) spec h = once_after_lem u zones from (n * k) spec h

in_duration_lem :
    (u : Unicode) (zones : Zones) (from : Datetime) (s : Place) (spec : StructuredTriggerSpec)
    → in_duration u zones from s ≡ ok (some spec)
    → IsOnceAhead from spec
unfolding in_duration
in_duration_lem u zones from s spec h =
    let length = text_entry unit_lengths (u.lower (get_or (match_group 2 s) [])) in
    let (amount, read, e) =
      >>=-eq-ok (amount_of u zones (u.lower (get_or (match_group 1 s) [])))
        (λ n. in_amount u zones from n length) h in
    in_amount_lem u zones from amount length spec e

-- A phrase such as `next friday` that is parsed to a trigger gives a once trigger on the weekday
-- that it names, one to seven days after the localized clock's day.
pub on_weekday_lem :
    (u : Unicode) (zones : Zones) (text : Text) (from : Datetime) (s : Place)
    (spec : StructuredTriggerSpec)
    → on_weekday u zones text from s ≡ ok (some spec)
    → (run_at : Datetime) × (target : ℕ) × (spec ≡ once_trigger run_at)
      × IsAhead from run_at
      × (text_entry weekday_names (u.lower (get_or (match_group 1 s) [])) ≡ some target)
      × (weekday run_at ≡ target)
      × (day_of from + 1 ≤ day_of run_at)
      × (day_of run_at ≤ day_of from + 7)
unfolding on_weekday weekday
on_weekday_lem u zones text from s spec h =
    let name = u.lower (get_or (match_group 1 s) []) in
    elim (Option-cases (text_entry weekday_names name)) [
      | inl missing ↦
          let e : Path (Result (Option StructuredTriggerSpec)) (err (key_error "weekday"))
              (ok (some spec)) =
            rw missing at h in
          cc
      | inr (target, found) ↦
          let e : on_day u zones text from (days_ahead target (weekday from)) ≡ ok (some spec) =
            rw found at h in
          let days =
            days_ahead_lem target (weekday from) (entry-weekday_names name target found)
              (weekday_lem from) in
          let (run_at, once, ahead, on) =
            on_day_lem u zones text from (days_ahead target (weekday from)) spec days.0 e in
          let near =
            later_day (day_of from) (day_of run_at) (days_ahead target (weekday from)) target days.0
              days.1 days.2 on in
          (run_at, target, once, ahead, found, near.0, near.1, near.2)
    ]

-- What `_localize` gives, and what follows it.
pub once_schedule_lem :
    (u : Unicode) (zones : Zones) (text : Text) (from : Datetime) (spec : StructuredTriggerSpec)
    → once_schedule u zones text from ≡ ok (some spec)
    → IsOnceAhead from spec
unfolding once_schedule
once_schedule_lem u zones text from spec h =
    elim (Option-cases (re_search u (in_duration_pattern u) text)) [
      | inr (s, found) ↦ in_duration_lem u zones from s spec (rw (once_schedule, found) at h)
      | inl absent ↦ elim (Option-cases (re_search u (tomorrow_pattern u) text)) [
        | inr (s, found) ↦
            let (run_at, once, ahead, on) =
              on_day_lem u zones text from 1 spec (ground arith)
                (rw (once_schedule, absent, found) at h) in
            (run_at, once, ahead)
        | inl no_day ↦ elim (Option-cases (re_search u (next_weekday_pattern u) text)) [
          | inr (s, found) ↦
              let (run_at, target, once, ahead, named, day, after, within) =
                on_weekday_lem u zones text from s spec
                  (rw (once_schedule, absent, no_day, found) at h) in
              (run_at, once, ahead)
          | inl no_name ↦
              let e : Path (Result (Option StructuredTriggerSpec)) (ok none) (ok (some spec)) =
                rw (once_schedule, absent, no_day, no_name) at h in
              cc
        ]
      ]
    ]

-- What a phrase is parsed to is a once trigger in the zone of the localized clock, within Python's
-- years, and not before the localized clock.
pub try_parse_once_schedule-IsAhead :
    (u : Unicode) (zones : Zones) (text : Text) (now : Datetime) (timezone : String)
    → (spec : StructuredTriggerSpec)
    → try_parse_once_schedule u zones text now timezone ≡ ok (some spec)
    → (from : Datetime) × (run_at : Datetime) × (localize zones now timezone ≡ ok from)
      × (spec ≡ once_trigger run_at)
      × IsAhead from run_at
unfolding try_parse_once_schedule
try_parse_once_schedule-IsAhead u zones text now timezone spec h =
    elim (Option-cases (re_search u (recurring_pattern u) text)) [
      | inr (s, found) ↦
          let e : Path (Result (Option StructuredTriggerSpec)) (ok none) (ok (some spec)) =
            rw (try_parse_once_schedule, found) at h in
          cc
      | inl absent ↦
          let (from, known, e) =
            >>=-eq-ok (localize zones now timezone) (once_schedule u zones text)
              (rw (try_parse_once_schedule, absent) at h) in
          let (run_at, once, ahead) = once_schedule_lem u zones text from spec e in
          (from, run_at, known, once, ahead)
    ]
