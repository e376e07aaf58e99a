-- ===== src/Services/TextParsing/Results.antt =====
-- What the parsing of a text gives: a trigger that can be scheduled, and the response about it.
use mathlib.Core.Path.{subst}
use schedualerl_lm.Base.{◌≡◌, refl, String, Option, none, some, [], ◌∷◌, inl, inr}
use schedualerl_lm.Parsing.RelativeSchedule.{try_parse_once_schedule}
use schedualerl_lm.Parsing.RelativeSchedule.Ahead.{try_parse_once_schedule-IsAhead}
use schedualerl_lm.Python.Datetime.{Datetime}
use schedualerl_lm.Python.Result.{Result, ok, Result-cases, >>=-eq-ok}
use schedualerl_lm.Python.Unicode.{codes}
use schedualerl_lm.Scheduler.Triggers.{compute_next_run_at, trigger_config_from_spec}
use schedualerl_lm.Schemas.Tasks.{StructuredTriggerSpec, once_trigger, spec_type}
use schedualerl_lm.Schemas.TriggerParse.{TriggerParseResponse}
use schedualerl_lm.Services.TextParsing.{
  Parser, now_in, schedulable_once, system_prompt, or_parse_error, ask_model, once_or_model,
  retries_of, parse_trigger_text_to_spec, parse_trigger_text,
}
use schedualerl_lm.Services.TriggerParse.Attempts.{IsSchedulable, attempts-IsSchedulable}

module _ (parser : Parser) (clock : Datetime) where
  open parser use {platform, unicode, files, triggers, model, settings}

  abbrev pub IsSchedulableNow : StructuredTriggerSpec → Type 0
  IsSchedulableNow spec = IsSchedulable platform triggers model clock spec

  once-IsSchedulable :
      (run_at : Datetime) (spec : StructuredTriggerSpec)
      → schedulable_once parser clock (once_trigger run_at) ≡ ok spec
      → IsSchedulableNow spec
  once-IsSchedulable run_at spec h =
      elim (Result-cases (compute_next_run_at platform triggers clock (once_trigger run_at))) [
        | inl (e, failed) ↦ let bad = rw (schedulable_once, failed) at h in cc
        | inr (next, computed) ↦
            let good : Path (Result StructuredTriggerSpec) (ok (once_trigger run_at)) (ok spec) =
              rw (schedulable_once, computed) at h in
            let same : once_trigger run_at ≡ spec = cc in
            subst IsSchedulableNow same
              (record { next = next; computes = computed; valid_cron = tt })
      ]

  ask_model-IsSchedulable :
      (phrase timezone : String) (now : Datetime) (spec : StructuredTriggerSpec)
      → ask_model parser clock phrase now timezone ≡ ok spec
      → IsSchedulableNow spec
  unfolding ask_model
  ask_model-IsSchedulable phrase timezone now spec h =
      let (prompt, rendered, answered) =
        >>=-eq-ok (or_parse_error (system_prompt parser clock now timezone)) _ h in
      attempts-IsSchedulable platform triggers model clock (retries_of settings.max_retries)
        timezone
        (record { role = "system"; content = prompt }
          ∷ record { role = "user"; content = phrase }
          ∷ [])
        0 spec answered

  once_or_model-IsSchedulable :
      (phrase timezone : String) (now : Datetime) (once : Option StructuredTriggerSpec)
      (spec : StructuredTriggerSpec)
      → try_parse_once_schedule unicode platform.zones (codes phrase) now timezone ≡ ok once
      → once_or_model parser clock phrase now timezone once ≡ ok spec
      → IsSchedulableNow spec
  once_or_model-IsSchedulable phrase timezone now none spec tried h =
      ask_model-IsSchedulable phrase timezone now spec h
  once_or_model-IsSchedulable phrase timezone now (some found) spec tried h =
      let (from, run_at, known, once, ahead) =
        try_parse_once_schedule-IsAhead unicode platform.zones (codes phrase) now timezone found
          tried in
      once-IsSchedulable run_at spec (rw once at h)

  -- A trigger that a text is parsed to, as a relative schedule or by the language model, can be
  -- scheduled: its next run time can be computed, and a cron expression is accepted by the
  -- validator.
  pub parse_trigger_text_to_spec-IsSchedulable :
      (phrase timezone : String) (spec : StructuredTriggerSpec)
      → parse_trigger_text_to_spec parser clock phrase timezone ≡ ok spec
      → IsSchedulable platform triggers model clock spec
  unfolding parse_trigger_text_to_spec
  parse_trigger_text_to_spec-IsSchedulable phrase timezone spec h =
      let (now, located, rest) = >>=-eq-ok (now_in parser clock timezone) _ h in
      let (once, tried, chosen) =
        >>=-eq-ok (try_parse_once_schedule unicode platform.zones (codes phrase) now timezone) _
          rest in
      once_or_model-IsSchedulable phrase timezone now once spec tried chosen

  -- The response about a trigger that can be scheduled.
  abbrev pub described : StructuredTriggerSpec → Option Datetime → TriggerParseResponse
  described spec next = record {
    trigger_type = spec_type spec;
    trigger_config = trigger_config_from_spec platform spec;
    next_run_at = next;
  }

  pub parse_trigger_text_lem :
      (phrase timezone : String) (spec : StructuredTriggerSpec)
      → parse_trigger_text_to_spec parser clock phrase timezone ≡ ok spec
      → (next : Option Datetime) × (compute_next_run_at platform triggers clock spec ≡ ok next)
        × (parse_trigger_text parser clock phrase timezone ≡ ok (described spec next))
  unfolding parse_trigger_text
  parse_trigger_text_lem phrase timezone spec h =
      let fine = parse_trigger_text_to_spec-IsSchedulable phrase timezone spec h in
      (fine.next, fine.computes, rw (h, fine.computes) refl)
