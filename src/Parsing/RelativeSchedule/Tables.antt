-- ===== src/Parsing/RelativeSchedule/Tables.antt =====
-- app/parsing/relative_schedule.py: the constant tables.
use schedualerl_lm.Base.{ℕ, String, Option, none, some, List, [], ◌∷◌, if◌then◌else◌}
use schedualerl_lm.Python.Datetime.{second, minute, hour, day}
use schedualerl_lm.Python.Unicode.{Text, codes, same_text}

-- `TEXTS.get(key)` of a constant dict with text keys.
abbrev pub text_entry {ℓ} : {A : Type ℓ} → List (String × A) → Text → Option A
text_entry [] key = none
text_entry ((k, a) ∷ rest) key = if same_text (codes k) key then some a else text_entry rest key

-- `WEEKDAY_NAMES`
abbrev pub weekday_names : List (String × ℕ)
weekday_names =
    ("monday", 0)
    ∷ ("tuesday", 1)
    ∷ ("wednesday", 2)
    ∷ ("thursday", 3)
    ∷ ("friday", 4)
    ∷ ("saturday", 5)
    ∷ ("sunday", 6)
    ∷ []

-- `WORD_NUMBERS`
abbrev pub word_numbers : List (String × ℕ)
word_numbers =
    ("a", 1)
    ∷ ("an", 1)
    ∷ ("one", 1)
    ∷ ("two", 2)
    ∷ ("three", 3)
    ∷ ("four", 4)
    ∷ ("five", 5)
    ∷ ("six", 6)
    ∷ ("seven", 7)
    ∷ ("eight", 8)
    ∷ ("nine", 9)
    ∷ ("ten", 10)
    ∷ []

-- `TIME_OF_DAY`
abbrev pub time_of_day : List (String × (ℕ × ℕ))
time_of_day =
    ("morning", (9, 0))
    ∷ ("noon", (12, 0))
    ∷ ("afternoon", (14, 0))
    ∷ ("evening", (18, 0))
    ∷ ("midnight", (0, 0))
    ∷ []

-- `DEFAULT_HOUR_MINUTE`
abbrev pub default_hour_minute : ℕ × ℕ
default_hour_minute = (9, 0)

-- What `match unit` multiplies the amount by, in microseconds.
abbrev pub unit_lengths : List (String × ℕ)
unit_lengths =
    ("second", second)
    ∷ ("seconds", second)
    ∷ ("minute", minute)
    ∷ ("minutes", minute)
    ∷ ("hour", hour)
    ∷ ("hours", hour)
    ∷ ("day", day)
    ∷ ("days", day)
    ∷ []
