-- ===== src/Prompts/Loader.antt =====
-- app/prompts/loader.py: reading the prompt's template and filling in its placeholders. The file and
-- the texts of exceptions and dates are an interface.
pub mod Failures
pub mod Rendering
use schedualerl_lm.Base.{
  ℕ, ◌+◌, ◌-◌, ◌*◌, ◌/◌, String, Bool, true, false, List, [], ◌∷◌, ◌==◌, ◌<>◌, leb, if◌then◌else◌,
}
use schedualerl_lm.Python.Datetime.{Datetime, hour, day, weekday, replace_time}
use schedualerl_lm.Python.Platform.{Platform}
use schedualerl_lm.Python.Result.{Exn, Result, ok, err, prompt_load_error, ◌>>=◌}
use schedualerl_lm.Python.Strings.{contains, replace, strip}
use schedualerl_lm.Python.Timedelta.{plus, localize}
use schedualerl_lm.Python.Unicode.{Unicode}

-- What `path.read_text(encoding="utf-8")` does: it may raise an `OSError`, of that text, or another
-- exception.
pub data FileRead : Type 0 where
  contents : String → FileRead
  os_error : String → FileRead
  raised : Exn → FileRead

pub record PromptFiles : Type 0 where
  pub read_text : String → FileRead
  -- `date.isoformat()`, of a day number
  pub date_isoformat : ℕ → String

abbrev pub current_iso_datetime_placeholder : String
current_iso_datetime_placeholder = "[INJECT_CURRENT_ISO_DATETIME]"

abbrev pub default_timezone_placeholder : String
default_timezone_placeholder = "[INJECT_DEFAULT_TIMEZONE]"

abbrev pub current_date_placeholder : String
current_date_placeholder = "[INJECT_CURRENT_DATE]"

abbrev pub tomorrow_morning_iso_placeholder : String
tomorrow_morning_iso_placeholder = "[INJECT_TOMORROW_MORNING_ISO]"

abbrev pub tomorrow_0815_iso_placeholder : String
tomorrow_0815_iso_placeholder = "[INJECT_TOMORROW_0815_ISO]"

abbrev pub next_friday_5pm_iso_placeholder : String
next_friday_5pm_iso_placeholder = "[INJECT_NEXT_FRIDAY_5PM_ISO]"

abbrev pub one_hour_later_iso_placeholder : String
one_hour_later_iso_placeholder = "[INJECT_ONE_HOUR_LATER_ISO]"

abbrev pub next_tuesday_9am_iso_placeholder : String
next_tuesday_9am_iso_placeholder = "[INJECT_NEXT_TUESDAY_9AM_ISO]"

module _ (u : Unicode) (files : PromptFiles) where
  abbrev pub nonempty_content : String → String → Result String
  nonempty_content path content =
      if content == ""
      then err (prompt_load_error ("Prompt file " <> (path <> " is empty")))
      else ok content

  -- `load_prompt`
  unfoldable pub load_prompt : String → Result String
  unfolding strip
  load_prompt path = elim (files.read_text path) [
    | contents content ↦ nonempty_content path (strip u content)
    | os_error message ↦
        err (prompt_load_error ("Failed to read prompt file " <> (path <> (": " <> message))))
    | raised e ↦ err e
  ]

-- `_next_weekday`
abbrev pub days_to_weekday : Datetime → ℕ → ℕ
days_to_weekday from target =
    if leb target (weekday from) then target + 7 - weekday from else target - weekday from

unfoldable pub next_weekday : Datetime → ℕ → Result Datetime
next_weekday from target = plus from (days_to_weekday from target * day)

-- The loop of `render_trigger_parse_prompt`.
unfoldable pub replace_all : List (String × String) → String → String
unfolding replace
replace_all [] rendered = rendered
replace_all ((placeholder, value) ∷ rest) rendered =
    replace_all rest (replace rendered placeholder value)

abbrev pub checked_prompt : String → Result String
checked_prompt rendered =
    if contains "[INJECT_" rendered
    then err (prompt_load_error "Unreplaced placeholders remain in trigger parse prompt")
    else ok rendered

module _ (p : Platform) (files : PromptFiles) where
  -- `build_trigger_parse_placeholders`: the items of the dict, in their order.
  unfoldable pub build_trigger_parse_placeholders :
      Datetime → String → Result (List (String × String))
  unfolding localize next_weekday
  build_trigger_parse_placeholders now timezone = do
    localized ← localize p.zones now timezone
    tomorrow ← plus localized day
    next_friday ← next_weekday localized 4
    one_hour_later ← plus localized hour
    next_tuesday ← next_weekday localized 1
    ok (
        (current_iso_datetime_placeholder, p.isoformat localized)
        ∷ (default_timezone_placeholder, timezone)
        ∷ (current_date_placeholder, files.date_isoformat (localized.wall / day))
        ∷ (tomorrow_morning_iso_placeholder, p.isoformat (replace_time tomorrow 9 0))
        ∷ (tomorrow_0815_iso_placeholder, p.isoformat (replace_time tomorrow 8 15))
        ∷ (next_friday_5pm_iso_placeholder, p.isoformat (replace_time next_friday 17 0))
        ∷ (one_hour_later_iso_placeholder, p.isoformat one_hour_later)
        ∷ (next_tuesday_9am_iso_placeholder, p.isoformat (replace_time next_tuesday 9 0))
        ∷ [])

  -- `render_trigger_parse_prompt`
  unfoldable pub render_trigger_parse_prompt : String → Datetime → String → Result String
  unfolding build_trigger_parse_placeholders replace_all
  render_trigger_parse_prompt content now timezone = do
    placeholders ← build_trigger_parse_placeholders now timezone
    checked_prompt (replace_all placeholders content)
