-- ===== src/Prompts/Loader/Rendering/Prompt.antt =====
-- A prompt that is rendered: the template with the value of each placeholder in its place.
use mathlib.Core.Path.{subst}
use schedualerl_lm.Base.{◌/◌, ◌≡◌, refl, String, true, List, [], ◌∷◌, All}
use schedualerl_lm.Prompts.Loader.{
  current_iso_datetime_placeholder, default_timezone_placeholder, current_date_placeholder,
  tomorrow_morning_iso_placeholder, tomorrow_0815_iso_placeholder, next_friday_5pm_iso_placeholder,
  one_hour_later_iso_placeholder, next_tuesday_9am_iso_placeholder, PromptFiles,
  build_trigger_parse_placeholders, render_trigger_parse_prompt, next_weekday,
}
use schedualerl_lm.Prompts.Loader.Rendering.{Piece, has_no_bracket, text_of}
use schedualerl_lm.Python.Datetime.{Datetime, day, hour, replace_time}
use schedualerl_lm.Python.Platform.{Platform}
use schedualerl_lm.Python.Result.{Result, ok, >>=-eq-ok}
use schedualerl_lm.Python.Timedelta.{plus, localize}
use schedualerl_lm.Prompts.Loader.Rendering.Filled.{
  IsEntry, AreApart, IsTemplate, value_of, replace_all-template, contains-text_of,
}

-- The values that the placeholders get have no bracket.
abbrev pub HasPlainValues : List (String × String) → Type 0
HasPlainValues ps = All (λ entry. has_no_bracket entry.1 ≡ true) ps

ok-injective :
    {a b : List (String × String)} → Path (Result (List (String × String))) (ok a) (ok b) → a ≡ b
ok-injective h = cc

-- The items of the dict, whatever its values.
abbrev items :
    String → String → String → String → String → String → String → String → List (String × String)
items v1 v2 v3 v4 v5 v6 v7 v8 =
    (current_iso_datetime_placeholder, v1)
    ∷ (default_timezone_placeholder, v2)
    ∷ (current_date_placeholder, v3)
    ∷ (tomorrow_morning_iso_placeholder, v4)
    ∷ (tomorrow_0815_iso_placeholder, v5)
    ∷ (next_friday_5pm_iso_placeholder, v6)
    ∷ (one_hour_later_iso_placeholder, v7)
    ∷ (next_tuesday_9am_iso_placeholder, v8)
    ∷ []

items-IsEntry :
    (v1 v2 v3 v4 v5 v6 v7 v8 : String)
    → HasPlainValues (items v1 v2 v3 v4 v5 v6 v7 v8)
    → All IsEntry (items v1 v2 v3 v4 v5 v6 v7 v8)
      × AreApart (items v1 v2 v3 v4 v5 v6 v7 v8) (items v1 v2 v3 v4 v5 v6 v7 v8)
items-IsEntry v1 v2 v3 v4 v5 v6 v7 v8 f = (
  (
    (refl, f.0),
    (
      (refl, f.1.0),
      (
        (refl, f.1.1.0),
        (
          (refl, f.1.1.1.0),
          (
            (refl, f.1.1.1.1.0),
            ((refl, f.1.1.1.1.1.0), ((refl, f.1.1.1.1.1.1.0), ((refl, f.1.1.1.1.1.1.1.0), tt))),
          ),
        ),
      ),
    ),
  ),
  (refl, (refl, (refl, (refl, (refl, (refl, (refl, (refl, tt)))))))),
)

module _ (p : Platform) (files : PromptFiles) (now : Datetime) (timezone : String) where
  placeholders-IsEntry :
      (ps : List (String × String))
      → build_trigger_parse_placeholders p files now timezone ≡ ok ps
      → HasPlainValues ps
      → All IsEntry ps × AreApart ps ps
  unfolding build_trigger_parse_placeholders
  placeholders-IsEntry ps h free =
      let (localized, e1, h1) = >>=-eq-ok (localize p.zones now timezone) _ h in
      let (tomorrow, e2, h2) = >>=-eq-ok (plus localized day) _ h1 in
      let (next_friday, e3, h3) = >>=-eq-ok (next_weekday localized 4) _ h2 in
      let (one_hour_later, e4, h4) = >>=-eq-ok (plus localized hour) _ h3 in
      let (next_tuesday, e5, h5) = >>=-eq-ok (next_weekday localized 1) _ h4 in
      let same = ok-injective h5 in
      subst (λ q. HasPlainValues q → All IsEntry q × AreApart q q) same
        (items-IsEntry (p.isoformat localized) timezone
          (files.date_isoformat (localized.wall / day)) (p.isoformat (replace_time tomorrow 9 0))
          (p.isoformat (replace_time tomorrow 8 15)) (p.isoformat (replace_time next_friday 17 0))
          (p.isoformat one_hour_later) (p.isoformat (replace_time next_tuesday 9 0)))
        free

  -- Rendering a template whose placeholders are those of the program, and in which every other
  -- opening bracket is followed by a character that is neither an I nor such a bracket, succeeds,
  -- and gives the template with the value of each placeholder in its place, in whatever order and
  -- however often they stand, if the values can be computed and have no opening bracket.
  pub render_trigger_parse_prompt-text_of :
      (ps : List (String × String)) (pieces : List Piece)
      → build_trigger_parse_placeholders p files now timezone ≡ ok ps
      → HasPlainValues ps
      → All (IsTemplate ps) pieces
      → render_trigger_parse_prompt p files (text_of (λ name. name) pieces) now timezone
        ≡ ok (text_of (value_of ps) pieces)
  unfolding render_trigger_parse_prompt
  render_trigger_parse_prompt-text_of ps pieces built free h =
      let (e, apart) = placeholders-IsEntry ps built free in
      rw (built, replace_all-template ps pieces e apart h, contains-text_of ps pieces e h) refl
