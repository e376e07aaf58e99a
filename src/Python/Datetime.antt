-- ===== src/Python/Datetime.antt =====
-- `datetime.datetime`. A datetime is the number of microseconds of its wall clock since
-- 0001-01-01T00:00, and the zone of an aware one. `fold` is left out: of an hour that a clock change
-- repeats, the zone's offset function picks the instant.
use schedualerl_lm.Base.{
  ℕ, ◌+◌, ◌-◌, ◌*◌, ◌/◌, ◌%◌, ◌≤◌, ◌≡◌, String, Bool, Option, none, some, leb, eqb, if◌then◌else◌,
  arith,
}

-- An offset from UTC is biased by a day, so that it is a natural number: Python's offsets lie
-- strictly between minus and plus one day.
pub data Zone : Type 0 where
  utc : Zone
  iana : String → Zone
  fixed : ℕ → Zone

pub record Datetime : Type 0 where
  pub wall : ℕ
  pub tzinfo : Option Zone

-- The time zone database: which names `ZoneInfo` knows, and the biased offset of a zone at a wall
-- time, and at an instant (on the scale of `instant` below).
pub record Zones : Type 0 where
  pub known : String → Bool
  pub offset : String → ℕ → ℕ
  pub offset_at : String → ℕ → ℕ

abbrev pub second : ℕ
second = 1000000

abbrev pub minute : ℕ
minute = 60000000

abbrev pub hour : ℕ
hour = 3600000000

abbrev pub day : ℕ
day = 86400000000

-- The number of days that Python's dates have: 0001-01-01 to 9999-12-31.
abbrev pub max_days : ℕ
max_days = 3652059

-- `datetime.weekday()`: 0001-01-01 is a Monday.
unfoldable pub weekday : Datetime → ℕ
weekday d = (d.wall / day) % 7

-- `d.replace(hour=h, minute=m, second=0, microsecond=0)`
unfoldable pub replace_time : Datetime → ℕ → ℕ → Datetime
replace_time d h m = record d { wall = d.wall / day * day + h * hour + m * minute }

-- `d.replace(tzinfo=z)`
abbrev pub replace_tzinfo : Datetime → Zone → Datetime
replace_tzinfo d z = record d { tzinfo = some z }

-- `if d.tzinfo is None: d = d.replace(tzinfo=timezone.utc)`
abbrev pub default_utc : Datetime → Datetime
default_utc d = elim d.tzinfo [ none ↦ replace_tzinfo d utc | some z ↦ d ]

module _ (zones : Zones) where
  -- The biased offset of a wall time in a zone.
  abbrev pub biased_offset : Zone → ℕ → ℕ
  biased_offset utc w = day
  biased_offset (iana name) w = zones.offset name w
  biased_offset (fixed o) w = o

  -- The instant of an aware datetime, on a scale that all zones share (it begins two days before
  -- year 1). A naive datetime is read as one in UTC.
  unfoldable pub instant : Datetime → ℕ
  instant d = elim d.tzinfo [
    | none ↦ d.wall + day
    | some z ↦ d.wall + 2 * day - biased_offset z d.wall
  ]

  -- `a >= b` on aware datetimes
  abbrev pub later_or_same : Datetime → Datetime → Bool
  later_or_same a b = leb (instant b) (instant a)

  -- `d.astimezone(timezone.utc)` of an aware datetime that lies in Python's years in UTC too.
  unfoldable pub to_utc : Datetime → Datetime
  unfolding instant
  to_utc d = record { wall = instant d - day; tzinfo = some utc }

  -- A conversion to UTC keeps the instant.
  pub instant-to_utc : (d : Datetime) → day ≤ instant d → instant (to_utc d) ≡ instant d
  unfolding to_utc
  instant-to_utc d h = ground arith

  -- The zone that `fromisoformat` gives a numeric offset: zero is `timezone.utc`.
  abbrev pub numeric_zone : ℕ → Zone
  numeric_zone o = if eqb o day then utc else fixed o

  -- The datetime with its zone replaced by the numeric offset; a naive one stays naive.
  unfoldable pub with_offset : Datetime → Datetime
  with_offset d = elim d.tzinfo [
    | none ↦ d
    | some z ↦ replace_tzinfo d (numeric_zone (biased_offset z d.wall))
  ]

  -- Rereading a datetime keeps its instant.
  pub instant-with_offset : (d : Datetime) → instant (with_offset d) ≡ instant d
  unfolding with_offset instant
  instant-with_offset d = ground arith

  pub wall-with_offset : (d : Datetime) → (with_offset d).wall ≡ d.wall
  unfolding with_offset
  wall-with_offset d = ground arith
