-- ===== src/Services/TriggerParse/Attempts.antt =====
-- How often the model is called, and what a parsed trigger is good for.
use mathlib.Core.Path.{subst}
use schedualerl_lm.Base.{
  if◌then◌else◌, ℕ, zero, suc, ◌≤◌, ◌+◌, ◌*◌, ◌≡◌, String, Bool, true, false, List, [], ◌∷◌, ◌++◌,
  arith, length, Option, inl, inr,
}
use schedualerl_lm.Python.Datetime.{Datetime}
use schedualerl_lm.Python.Platform.{Platform}
use schedualerl_lm.Python.Result.{
  Exn, other, Result, ok, err, trigger_parse_error, Result-cases, >>=-eq-ok,
}
use schedualerl_lm.Scheduler.Triggers.{Triggers, compute_next_run_at}
use schedualerl_lm.Schemas.Tasks.{
  StructuredTriggerSpec, once_trigger, cron_trigger_spec, interval_trigger_spec,
}
use schedualerl_lm.Schemas.TriggerParse.{trigger_spec_from_llm_output}
use schedualerl_lm.Services.TriggerParse.{
  Message, ResponseFormat, json_schema, json_object, no_format, LanguageModel, try_formats,
  call_llm, parse_once, attempts, retried, correction, parse_trigger_json, is_valid_cron_expression,
  checked_cron, schedulable, rejected, log_failed_parse, valid_output, valid_spec,
}

module _ (p : Platform) (api : Triggers) (lm : LanguageModel) (now : Datetime) where
  try_formats-calls :
      (formats : List ResponseFormat) (messages : List Message) (last : Exn) (n : ℕ)
      → (try_formats p api lm now formats messages last n).1 ≤ n + length formats
  unfolding try_formats
  try_formats-calls [] messages last n = omega arith
  try_formats-calls (format ∷ formats) messages last n =
      elim (Result-cases (lm.completion n messages format)) [
        | inl (e, failed) ↦
            rw (failed, try_formats)
              (let h = try_formats-calls formats messages e (suc n) in omega arith)
        | inr (content, given) ↦ rw (given, try_formats) (omega arith)
      ]

  retried-calls :
      (r : Result StructuredTriggerSpec × ℕ) (again : String → ℕ → Result StructuredTriggerSpec × ℕ)
      (bound : ℕ)
      → r.1 ≤ bound
      → ((message : String) → (again message r.1).1 ≤ bound)
      → (retried p api lm now r again).1 ≤ bound
  retried-calls (err (trigger_parse_error message), n) again bound h k = k message
  retried-calls (r, n) again bound h k = h

  parse_once-calls :
      (timezone : String) (messages : List Message) (n : ℕ)
      → (parse_once p api lm now timezone messages n).1 ≤ n + 3
  unfolding parse_once call_llm
  parse_once-calls timezone messages n =
      try_formats-calls (json_schema ∷ json_object ∷ no_format ∷ []) messages (other "None") n

  -- With that many retries left, parsing a text calls the model at most three times for each
  -- attempt, once for each response format.
  pub attempts-calls :
      (retries : ℕ) (timezone : String) (messages : List Message) (n : ℕ)
      → (attempts p api lm now retries timezone messages n).1 ≤ n + 3 * suc retries
  unfolding attempts
  attempts-calls zero timezone messages n = parse_once-calls timezone messages n
  attempts-calls (suc retries) timezone messages n =
      let once = parse_once-calls timezone messages n in
      retried-calls (parse_once p api lm now timezone messages n) _ (n + 3 * suc (suc retries))
        (omega arith)
        (λ message.
          let rest =
            attempts-calls retries timezone (messages ++ correction p api lm now message ∷ [])
              (parse_once p api lm now timezone messages n).1 in
          omega arith)

  -- Firing times can be computed, and a cron expression is one.
  abbrev pub HasValidCron : StructuredTriggerSpec → Type 0
  HasValidCron (cron_trigger_spec expression tz) =
      is_valid_cron_expression p api lm now expression ≡ ok true
  HasValidCron _ = Unit

  pub record IsSchedulable (spec : StructuredTriggerSpec) : Type 0 where
    pub next : Option Datetime
    pub computes : compute_next_run_at p api now spec ≡ ok next
    pub valid_cron : HasValidCron spec

  rejected-fails :
      {A : Type 0} (raw message : String) {a : A} → rejected p api lm now raw message ≡ ok a → ⊥
  rejected-fails raw message h =
      let (x, y, e) = >>=-eq-ok (log_failed_parse p api lm now raw) _ h in cc

  schedulable-computes :
      (raw : String) (spec result : StructuredTriggerSpec)
      → schedulable p api lm now raw spec ≡ ok result
      → (spec ≡ result) × (next : Option Datetime) × (compute_next_run_at p api now spec ≡ ok next)
  schedulable-computes raw spec result h =
      elim (Result-cases (compute_next_run_at p api now spec)) [
        | inl (e, failed) ↦ absurd (rejected-fails raw _ (rw (schedulable, failed) at h))
        | inr (next, computed) ↦
            let same = rw (schedulable, computed) at h in (ground arith, next, computed)
      ]

  accepted :
      (expression raw message : String) (valid : Bool) {x : Unit {0}}
      → is_valid_cron_expression p api lm now expression ≡ ok valid
      → (if valid then ok tt else rejected p api lm now raw message) ≡ ok x
      → is_valid_cron_expression p api lm now expression ≡ ok true
  accepted expression raw message true answered checked = answered
  accepted expression raw message false answered checked =
      absurd (rejected-fails raw message checked)

  checked_cron-HasValidCron :
      (raw : String) (spec : StructuredTriggerSpec) {x : Unit {0}}
      → checked_cron p api lm now raw spec ≡ ok x
      → HasValidCron spec
  checked_cron-HasValidCron raw (cron_trigger_spec expression tz) h =
      let (valid, answered, checked) =
        >>=-eq-ok (is_valid_cron_expression p api lm now expression) _ h in
      accepted expression raw _ valid answered checked
  checked_cron-HasValidCron raw (once_trigger d) h = tt
  checked_cron-HasValidCron raw (interval_trigger_spec n) h = tt

  parse_trigger_json-IsSchedulable :
      (raw timezone : String) (spec : StructuredTriggerSpec)
      → parse_trigger_json p api lm now raw timezone ≡ ok spec
      → IsSchedulable spec
  unfolding parse_trigger_json
  parse_trigger_json-IsSchedulable raw timezone spec h = elim (Result-cases (lm.loads raw)) [
    | inl (e, failed) ↦ let bad = rw (parse_trigger_json, failed) at h in cc
    | inr (parsed, loaded) ↦
        let good = rw (parse_trigger_json, loaded) at h in
        let (output, _, after_output) = >>=-eq-ok (valid_output p api lm now raw parsed) _ good in
        let (found, _, after_spec) =
          >>=-eq-ok (valid_spec p api lm now raw (trigger_spec_from_llm_output p output timezone)) _
            after_output in
        let (x, checked, last) = >>=-eq-ok (checked_cron p api lm now raw found) _ after_spec in
        let (same, next, computes) = schedulable-computes raw found spec last in
        subst IsSchedulable same (record {
          next = next;
          computes = computes;
          valid_cron = checked_cron-HasValidCron raw found checked;
        })
  ]

  retried-IsSchedulable :
      (r : Result StructuredTriggerSpec × ℕ) (again : String → ℕ → Result StructuredTriggerSpec × ℕ)
      (spec : StructuredTriggerSpec)
      → (r.0 ≡ ok spec → IsSchedulable spec)
      → ((message : String) → (again message r.1).0 ≡ ok spec → IsSchedulable spec)
      → (retried p api lm now r again).0 ≡ ok spec
      → IsSchedulable spec
  retried-IsSchedulable (err (trigger_parse_error message), n) again spec h k = k message
  retried-IsSchedulable (r, n) again spec h k = h

  parse_once-IsSchedulable :
      (timezone : String) (messages : List Message) (n : ℕ) (spec : StructuredTriggerSpec)
      → (parse_once p api lm now timezone messages n).0 ≡ ok spec
      → IsSchedulable spec
  unfolding parse_once
  parse_once-IsSchedulable timezone messages n spec h =
      let (raw, _, parsed) = >>=-eq-ok (call_llm p api lm now messages n).0 _ h in
      parse_trigger_json-IsSchedulable raw timezone spec parsed

  -- A trigger that the retried parsing of a model's answers gives, however many retries it took,
  -- can be scheduled: its next run time can be computed, and a cron expression is accepted by the
  -- validator.
  pub attempts-IsSchedulable :
      (retries : ℕ) (timezone : String) (messages : List Message) (n : ℕ)
      (spec : StructuredTriggerSpec)
      → (attempts p api lm now retries timezone messages n).0 ≡ ok spec
      → IsSchedulable spec
  unfolding attempts
  attempts-IsSchedulable zero timezone messages n spec h =
      parse_once-IsSchedulable timezone messages n spec h
  attempts-IsSchedulable (suc retries) timezone messages n spec h =
      retried-IsSchedulable (parse_once p api lm now timezone messages n) _ spec
        (parse_once-IsSchedulable timezone messages n spec)
        (λ message.
          attempts-IsSchedulable retries timezone (messages ++ correction p api lm now message ∷ [])
            (parse_once p api lm now timezone messages n).1 spec)
        h
