-- ===== src/Python/Timedelta.antt =====
-- Arithmetic on datetimes that may leave Python's years, and conversion to a named zone.
use schedualerl_lm.Base.{
  ℕ, ◌+◌, ◌-◌, ◌*◌, String, Bool, false, Option, none, some, ◌==◌, ltb, if◌then◌else◌,
}
use schedualerl_lm.Python.Datetime.{
  Datetime, Zone, iana, Zones, day, max_days, instant, replace_tzinfo,
}
use schedualerl_lm.Python.Result.{Result, ok, err, overflow_error, key_error}

-- `d + delta`, of a delta of that many microseconds: on the wall clock, whatever the zone. A timedelta
-- that is too long for Python raises the same exception as a date that is out of range.
unfoldable pub plus : Datetime → ℕ → Result Datetime
plus d delta =
    if ltb (d.wall + delta) (max_days * day)
    then ok (record d { wall = d.wall + delta })
    else err overflow_error

-- Whether a datetime is in a zone of that name: `ZoneInfo` gives one object for each name.
abbrev pub is_in_zone : Option Zone → String → Bool
is_in_zone (some (iana other)) name = other == name
is_in_zone _ name = false

module _ (zones : Zones) where
  -- `d.astimezone(ZoneInfo(name))` of an aware datetime, more than a day from the ends of the years.
  unfoldable pub astimezone : Datetime → String → Datetime
  unfolding instant
  astimezone d name = if is_in_zone d.tzinfo name then d else record {
    wall = instant zones d + zones.offset_at name (instant zones d) - 2 * day;
    tzinfo = some (iana name);
  }

  abbrev pub in_known_zone : Datetime → String → Datetime
  in_known_zone now timezone = elim now.tzinfo [
    | none ↦ replace_tzinfo now (iana timezone)
    | some z ↦ astimezone now timezone
  ]

  -- `_localize` of app/parsing/relative_schedule.py, and `_localize_now` of app/prompts/loader.py
  unfoldable pub localize : Datetime → String → Result Datetime
  unfolding astimezone
  localize now timezone =
      if zones.known timezone then ok (in_known_zone now timezone) else err (key_error timezone)
