-- ===== src/Tests/Phrases.antt =====
-- Phrases of `tests/test_relative_schedule.py`, and some that are misread.
use schedualerl_lm.Base.{ℕ, refl, ◌≡◌, Option, none, some, String, true}
use schedualerl_lm.Parsing.RelativeSchedule.{
  try_parse_once_schedule, parse_time_of_day, parse_at_time, int_of,
}
use schedualerl_lm.Python.Datetime.{Datetime, Zones, iana, weekday, replace_time}
use schedualerl_lm.Python.Regex.{re_search}
use schedualerl_lm.Python.Result.{Result, ok}
use schedualerl_lm.Python.Timedelta.{plus}
use schedualerl_lm.Python.Unicode.{ascii, codes}
use schedualerl_lm.Schemas.Tasks.{StructuredTriggerSpec, once_trigger}

abbrev pub all_zones : Zones
all_zones = record {
  known = λ name. true;
  offset = λ name w. 86400000000;
  offset_at = λ name i. 86400000000;
}

-- 2026-05-24T08:00, a Sunday
abbrev pub frozen_time : Datetime
frozen_time = record { wall = 63915206400000000; tzinfo = some (iana "UTC") }

abbrev parsed : String → Result (Option StructuredTriggerSpec)
parsed phrase = try_parse_once_schedule ascii all_zones (codes phrase) frozen_time "UTC"

abbrev at : ℕ → Result (Option StructuredTriggerSpec)
at w = ok (some (once_trigger (record { wall = w; tzinfo = some (iana "UTC") })))

in_one_hour : parsed "in one hour" ≡ at 63915210000000000
unfolding try_parse_once_schedule re_search plus int_of
in_one_hour = refl

tomorrow_morning : parsed "tomorrow morning" ≡ at 63915296400000000
unfolding try_parse_once_schedule re_search plus int_of parse_time_of_day parse_at_time weekday
    replace_time
tomorrow_morning = refl

tomorrow_at_time : parsed "Tomorrow at 8:15 AM" ≡ at 63915293700000000
unfolding try_parse_once_schedule re_search plus int_of parse_time_of_day parse_at_time weekday
    replace_time
tomorrow_at_time = refl

next_friday : parsed "Next Friday at 5pm" ≡ at 63915670800000000
unfolding try_parse_once_schedule re_search plus int_of parse_time_of_day parse_at_time weekday
    replace_time
next_friday = refl

in_30_minutes : parsed "in 30 minutes" ≡ at 63915208200000000
unfolding try_parse_once_schedule re_search plus int_of parse_time_of_day parse_at_time weekday
    replace_time
in_30_minutes = refl

next_sunday : parsed "next sunday" ≡ at 63915814800000000
unfolding try_parse_once_schedule re_search plus int_of parse_time_of_day parse_at_time weekday
    replace_time
next_sunday = refl

-- A time with no am or pm is passed over: the default is taken.
tomorrow_24_hour_clock : parsed "tomorrow at 17:30" ≡ at 63915296400000000
unfolding try_parse_once_schedule re_search plus int_of parse_time_of_day parse_at_time weekday
    replace_time
tomorrow_24_hour_clock = refl

-- A part of the day wins over the time that is named.
tomorrow_afternoon_at_3pm : parsed "tomorrow afternoon at 3pm" ≡ at 63915314400000000
unfolding try_parse_once_schedule re_search plus int_of parse_time_of_day parse_at_time weekday
    replace_time
tomorrow_afternoon_at_3pm = refl

every_day : parsed "every day at 9am" ≡ ok none
unfolding try_parse_once_schedule re_search
every_day = refl

no_phrase : parsed "when it rains" ≡ ok none
unfolding try_parse_once_schedule re_search
no_phrase = refl
