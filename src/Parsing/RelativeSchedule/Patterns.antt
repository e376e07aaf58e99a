-- ===== src/Parsing/RelativeSchedule/Patterns.antt =====
-- app/parsing/relative_schedule.py: the regular expressions.
use schedualerl_lm.Base.{String, none, some, [], ◌∷◌}
use schedualerl_lm.Python.Regex.{Regex, repeat, boundary, seq, optional, group, alt, any_of, word}
use schedualerl_lm.Python.Unicode.{Unicode, codes, in_range}

module _ (u : Unicode) where
  abbrev a_word : String → Regex
  a_word s = word u (codes s)

  abbrev spaces : Regex
  spaces = repeat u.is_space 1 none

  -- `RECURRING_PATTERN`
  abbrev pub recurring_pattern : Regex
  recurring_pattern = seq boundary (
      seq
        (group 1 (
          any_of (a_word "every") (
            a_word "each"
            ∷ a_word "daily"
            ∷ a_word "weekly"
            ∷ a_word "hourly"
            ∷ a_word "biweekly"
            ∷ a_word "fortnightly"
            ∷ seq (a_word "weekday") (optional (a_word "s"))
            ∷ seq (a_word "weekend") (optional (a_word "s"))
            ∷ [])))
        boundary)

  -- `AT_TIME_PATTERN`
  abbrev pub at_time_pattern : Regex
  at_time_pattern = seq (optional (seq boundary (seq (a_word "at") spaces))) (
      seq (group 1 (repeat u.is_digit 1 (some 2))) (
        seq (optional (seq (a_word ":") (group 2 (repeat u.is_digit 2 (some 2))))) (
          seq (repeat u.is_space 0 none)
            (seq (group 3 (alt (a_word "am") (a_word "pm"))) boundary))))

  -- `IN_DURATION_PATTERN`
  abbrev pub in_duration_pattern : Regex
  in_duration_pattern = seq boundary (
      seq (a_word "in") (
        seq spaces (
          seq
            (group 1
              (alt (repeat (λ c. in_range b'a' b'z' (u.fold c)) 1 none) (repeat u.is_digit 1 none)))
            (seq spaces (
              seq
                (group 2 (
                  any_of (a_word "second") (
                    a_word "seconds"
                    ∷ a_word "minute"
                    ∷ a_word "minutes"
                    ∷ a_word "hour"
                    ∷ a_word "hours"
                    ∷ a_word "day"
                    ∷ a_word "days"
                    ∷ [])))
                boundary)))))

  -- `TOMORROW_PATTERN`
  abbrev pub tomorrow_pattern : Regex
  tomorrow_pattern = seq boundary (seq (a_word "tomorrow") boundary)

  -- `NEXT_WEEKDAY_PATTERN`
  abbrev pub next_weekday_pattern : Regex
  next_weekday_pattern = seq boundary (
      seq (a_word "next") (
        seq spaces (
          seq
            (group 1 (
              any_of (a_word "monday") (
                a_word "tuesday"
                ∷ a_word "wednesday"
                ∷ a_word "thursday"
                ∷ a_word "friday"
                ∷ a_word "saturday"
                ∷ a_word "sunday"
                ∷ [])))
            boundary)))
