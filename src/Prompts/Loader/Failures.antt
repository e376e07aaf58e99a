-- ===== src/Prompts/Loader/Failures.antt =====
-- With which exception a prompt fails: `PromptLoadError`, or one of a date beyond Python's years.
use schedualerl_lm.Base.{
  if◌then◌else◌, ℕ, ◌+◌, ◌*◌, ◌<◌, ◌≤◌, ◌≡◌, refl, String, Bool, true, false, Bool-cases, Option,
  none, some, arith, ◌==◌, eq_refl, inl, inr,
}
use schedualerl_lm.Prompts.Loader.{
  PromptFiles, FileRead, contents, os_error, raised, load_prompt, next_weekday, days_to_weekday,
  build_trigger_parse_placeholders, replace_all, render_trigger_parse_prompt,
}
use schedualerl_lm.Python.Datetime.{Datetime, Zones, Zone, hour, day, max_days, weekday}
use schedualerl_lm.Python.Platform.{Platform}
use schedualerl_lm.Python.Result.{Exn, prompt_load_error, ok, err, FailsOnly, Result-cases, is_ok}
use schedualerl_lm.Python.Strings.{strip, contains}
use schedualerl_lm.Python.Timedelta.{plus, is_in_zone, astimezone, in_known_zone, localize}
use schedualerl_lm.Python.Unicode.{Unicode}

-- Reading a file raises nothing but an `OSError`.
abbrev pub IsReadable : PromptFiles → Type 0
IsReadable files = (path : String) (e : Exn) → files.read_text path ≡ raised e → ⊥

abbrev pub IsPromptError : Exn → Type 0
IsPromptError (prompt_load_error message) = Unit
IsPromptError _ = ⊥

-- A datetime that is in a zone stays as it is in it.
in_known_zone-same :
    (zones : Zones) (w : ℕ) (z : Option Zone) (timezone : String)
    → is_in_zone z timezone ≡ true
    → in_known_zone zones (record { wall = w; tzinfo = z }) timezone
      ≡ record { wall = w; tzinfo = z }
unfolding astimezone
in_known_zone-same zones w none timezone h = cc
in_known_zone-same zones w (some z) timezone h = rw (astimezone, h) refl

astimezone-is_in_zone :
    (zones : Zones) (clock : Datetime) (timezone : String)
    → is_in_zone (astimezone zones clock timezone).tzinfo timezone ≡ true
unfolding astimezone
astimezone-is_in_zone zones clock timezone = elim (Bool-cases (is_in_zone clock.tzinfo timezone)) [
  | inl inside ↦ rw (inside, astimezone) inside
  | inr outside ↦ rw (outside, astimezone) (eq_refl timezone)
]

pub localize-astimezone :
    (zones : Zones) (clock : Datetime) (timezone : String)
    → zones.known timezone ≡ true
    → localize zones (astimezone zones clock timezone) timezone
      ≡ ok (astimezone zones clock timezone)
unfolding localize
localize-astimezone zones clock timezone known =
    let moved = astimezone zones clock timezone in
    rw
      (
        known,
        in_known_zone-same zones moved.wall moved.tzinfo timezone
            (astimezone-is_in_zone zones clock timezone),
      )
      refl

-- A date has seven days after it, that the placeholders name.
plus-ok :
    (d : Datetime) (delta : ℕ)
    → d.wall + delta < max_days * day
    → plus d delta ≡ ok (record d { wall = d.wall + delta })
unfolding plus
plus-ok d delta h = ground arith

next_weekday-ok :
    (d : Datetime) (target : ℕ)
    → target ≤ 6
    → d.wall + 7 * day < max_days * day
    → next_weekday d target ≡ ok (record d { wall = d.wall + days_to_weekday d target * day })
unfolding next_weekday weekday
next_weekday-ok d target t h = plus-ok d (days_to_weekday d target * day) (ground arith)

-- The placeholders can be filled in.
pub build_trigger_parse_placeholders-ok :
    (p : Platform) (files : PromptFiles) (now : Datetime) (timezone : String)
    → localize p.zones now timezone ≡ ok now
    → now.wall + 7 * day < max_days * day
    → is_ok (build_trigger_parse_placeholders p files now timezone) ≡ true
unfolding build_trigger_parse_placeholders
build_trigger_parse_placeholders-ok p files now timezone located h =
    rw
      (
        located,
        plus-ok now day (omega arith),
        next_weekday-ok now 4 (omega arith) h,
        plus-ok now hour (omega arith),
        next_weekday-ok now 1 (omega arith) h,
      )
      refl

FailsOnly-if :
    (b : Bool) (message content : String)
    → FailsOnly IsPromptError (if b then err (prompt_load_error message) else ok content)
FailsOnly-if true message content = tt
FailsOnly-if false message content = tt

pub load_prompt-IsPromptError :
    (u : Unicode) (files : PromptFiles) (path : String) (read : FileRead)
    → IsReadable files
    → files.read_text path ≡ read
    → FailsOnly IsPromptError (load_prompt u files path)
unfolding load_prompt
load_prompt-IsPromptError u files path (contents content) readable e =
    rw (load_prompt, e) (FailsOnly-if (strip u content == "") _ (strip u content))
load_prompt-IsPromptError u files path (os_error message) readable e = rw (load_prompt, e) tt
load_prompt-IsPromptError u files path (raised exn) readable e = absurd (readable path exn e)

pub render-IsPromptError :
    (p : Platform) (files : PromptFiles) (template : String) (now : Datetime) (timezone : String)
    → is_ok (build_trigger_parse_placeholders p files now timezone) ≡ true
    → FailsOnly IsPromptError (render_trigger_parse_prompt p files template now timezone)
unfolding render_trigger_parse_prompt
render-IsPromptError p files template now timezone filled =
    elim (Result-cases (build_trigger_parse_placeholders p files now timezone)) [
      | inl (e, failed) ↦ let bad : false ≡ true = rw failed at filled in cc
      | inr (placeholders, built) ↦
          rw (built, render_trigger_parse_prompt)
            (FailsOnly-if (contains "[INJECT_" (replace_all placeholders template)) _
              (replace_all placeholders template))
    ]
