-- ===== src/Tests/Prompts.antt =====
-- A template with a bracket, a time zone and a date in it.
use schedualerl_lm.Base.{arith, ◌≡◌, refl, String, List, [], ◌∷◌, ◌++◌}
use schedualerl_lm.Prompts.Loader.{
  current_iso_datetime_placeholder, default_timezone_placeholder, current_date_placeholder,
  tomorrow_morning_iso_placeholder, tomorrow_0815_iso_placeholder, next_friday_5pm_iso_placeholder,
  one_hour_later_iso_placeholder, next_tuesday_9am_iso_placeholder, render_trigger_parse_prompt,
  build_trigger_parse_placeholders,
}
use schedualerl_lm.Prompts.Loader.Rendering.{Piece, plain, bracketed, slot, text_of}
use schedualerl_lm.Prompts.Loader.Rendering.Filled.{value_of}
use schedualerl_lm.Prompts.Loader.Rendering.Prompt.{render_trigger_parse_prompt-text_of}
use schedualerl_lm.Python.Datetime.{weekday, replace_time}
use schedualerl_lm.Python.Result.{ok}
use schedualerl_lm.Python.Timedelta.{plus}
use schedualerl_lm.Tests.{platform, clock}
use schedualerl_lm.Tests.Texts.{prompt_files}

abbrev plains : String → List Piece
plains String.[] = []
plains (String.◌∷◌ c s) = plain c ∷ plains s

-- A text after a bracket.
abbrev in_bracket : String → List Piece
in_bracket String.[] = []
in_bracket (String.◌∷◌ c s) = bracketed c ∷ plains s

abbrev template : List Piece
template =
    plains "Today: "
    ++ slot current_date_placeholder ∷ in_bracket "day], "
    ++ slot default_timezone_placeholder ∷ []

abbrev shown : String
shown = "2025-12-02T00:00:00+00:00"

abbrev placeholders : List (String × String)
placeholders =
    (current_iso_datetime_placeholder, shown)
    ∷ (default_timezone_placeholder, "Europe/Berlin")
    ∷ (current_date_placeholder, "2025-12-01")
    ∷ (tomorrow_morning_iso_placeholder, shown)
    ∷ (tomorrow_0815_iso_placeholder, shown)
    ∷ (next_friday_5pm_iso_placeholder, shown)
    ∷ (one_hour_later_iso_placeholder, shown)
    ∷ (next_tuesday_9am_iso_placeholder, shown)
    ∷ []

template_text :
    text_of (λ name. name) template ≡ "Today: [INJECT_CURRENT_DATE][day], [INJECT_DEFAULT_TIMEZONE]"
template_text = refl

render_trigger_parse_prompt-text_of_example :
    render_trigger_parse_prompt platform prompt_files
      (text_of (λ name. name) template)
      clock
      "Europe/Berlin"
    ≡ ok (text_of (value_of placeholders) template)
unfolding build_trigger_parse_placeholders plus weekday replace_time
render_trigger_parse_prompt-text_of_example =
    render_trigger_parse_prompt-text_of platform prompt_files clock "Europe/Berlin" placeholders
      template refl (ground arith) (ground arith)
