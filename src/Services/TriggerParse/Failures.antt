-- ===== src/Services/TriggerParse/Failures.antt =====
-- With which exception the attempts fail, and when they succeed.
use schedualerl_lm.Base.{
  if◌then◌else◌, ℕ, zero, suc, ◌≡◌, refl, String, Bool, true, false, Bool-cases, Option-cases,
  get_or, List, [], ◌∷◌, ◌++◌, ◌<>◌, ◌==◌, Option, none, some, inl, inr,
}
use schedualerl_lm.Enums.{TriggerType, once, cron, interval}
use schedualerl_lm.Python.Datetime.{Datetime}
use schedualerl_lm.Python.Platform.{Platform}
use schedualerl_lm.Python.Result.{
  Exn, other, value_error, Result, ok, err, trigger_parse_error, FailsOnly, IsParseError,
  IsValueError, FailsOnly->>=, Result-cases, >>=-eq-ok, ◌>>=◌,
}
use schedualerl_lm.Scheduler.Triggers.{Triggers, compute_next_run_at}
use schedualerl_lm.Schemas.Tasks.{
  StructuredTriggerSpec, once_trigger, cron_trigger_spec, interval_trigger_spec,
}
use schedualerl_lm.Schemas.TriggerParse.{
  TriggerParseLlmOutput, validate_type_fields, trigger_spec_from_llm_output,
}
use schedualerl_lm.Schemas.TriggerParse.Validation.{meant, trigger_spec_from_llm_output-validated}
use schedualerl_lm.Services.TriggerParse.{
  Message, ResponseFormat, json_schema, json_object, no_format, LanguageModel, try_formats,
  call_llm, parse_once, attempts, retried, correction, parse_trigger_json, is_valid_cron_expression,
  checked_cron, schedulable, rejected, log_failed_parse, valid_output, valid_spec, extract_content,
  valid_or_raised,
}

-- A model whose answers are JSON objects, and a cron validator that raises nothing but `ValueError`.
pub record IsOrderly (lm : LanguageModel) : Type 0 where
  pub objects :
      (raw : String) (parsed : lm.Json) → lm.loads raw ≡ ok parsed → lm.is_object parsed ≡ true
  pub validator : (expression : String) → FailsOnly IsValueError (lm.cron_parses expression)

module _ (p : Platform) (api : Triggers) (lm : LanguageModel) (now : Datetime) where
  module _ (orderly : IsOrderly lm) where
    log_failed_parse-ok : (raw : String) → log_failed_parse p api lm now raw ≡ ok tt
    log_failed_parse-ok raw = elim (Result-cases (lm.loads raw)) [
      | inl (e, failed) ↦ rw (log_failed_parse, failed) refl
      | inr (parsed, loaded) ↦ rw (log_failed_parse, loaded, orderly.objects raw parsed loaded) refl
    ]

    rejected-IsParseError :
        (A : Type 0) (raw message : String)
        → FailsOnly IsParseError (rejected p api lm now {A = A} raw message)
    rejected-IsParseError A raw message = rw (rejected, log_failed_parse-ok raw) tt

    valid_output-IsParseError :
        (raw : String) (parsed : lm.Json)
        → FailsOnly IsParseError (valid_output p api lm now raw parsed)
    valid_output-IsParseError raw parsed =
        elim (Result-cases (lm.read_fields parsed >>= validate_type_fields)) [
          | inl (e, failed) ↦
              rw (valid_output, failed) (rejected-IsParseError TriggerParseLlmOutput raw _)
          | inr (output, read) ↦ rw (valid_output, read) tt
        ]

    -- What a validated answer stands for, in a time zone that is known.
    meant-IsParseError :
        (raw : String) (output : TriggerParseLlmOutput) (timezone : String) (kind : TriggerType)
        → p.zones.known timezone ≡ true
        → output.kind ≡ kind
        → FailsOnly IsParseError (valid_spec p api lm now raw (meant p output timezone))
    meant-IsParseError raw output timezone cron known e = rw (meant, e, known) tt
    meant-IsParseError raw output timezone interval known e = rw (meant, e) tt
    meant-IsParseError raw output timezone once known e =
        elim (Option-cases (p.fromisoformat (get_or output.once_datetime ""))) [
          | inl missing ↦ rw (meant, e, missing) (rejected-IsParseError StructuredTriggerSpec raw _)
          | inr (d, read) ↦ rw (meant, e, read) tt
        ]

    answered-IsParseError :
        (raw message : String) (answer : Result Bool)
        → FailsOnly IsValueError answer
        → FailsOnly IsParseError (
            valid_or_raised p api lm now answer >>= λ valid.
            if valid then ok tt else rejected p api lm now raw message)
    answered-IsParseError raw message (ok true) h = tt
    answered-IsParseError raw message (ok false) h = rejected-IsParseError Unit raw message
    answered-IsParseError raw message (err (value_error why)) h =
        rejected-IsParseError Unit raw message
    answered-IsParseError raw message (err e) h = absurd h

    checked_cron-IsParseError :
        (raw : String) (spec : StructuredTriggerSpec)
        → FailsOnly IsParseError (checked_cron p api lm now raw spec)
    unfolding is_valid_cron_expression
    checked_cron-IsParseError raw (cron_trigger_spec expression tz) =
        answered-IsParseError raw ("Invalid cron expression: " <> lm.repr expression)
          (lm.cron_parses expression) (orderly.validator expression)
    checked_cron-IsParseError raw (once_trigger d) = tt
    checked_cron-IsParseError raw (interval_trigger_spec n) = tt

    schedulable-IsParseError :
        (raw : String) (spec : StructuredTriggerSpec)
        → FailsOnly IsParseError (schedulable p api lm now raw spec)
    schedulable-IsParseError raw spec = elim (Result-cases (compute_next_run_at p api now spec)) [
      | inl (e, failed) ↦
          rw (schedulable, failed) (rejected-IsParseError StructuredTriggerSpec raw _)
      | inr (next, computed) ↦ rw (schedulable, computed) tt
    ]

    valid_output-validated :
        (raw : String) (parsed : lm.Json) (output : TriggerParseLlmOutput)
        → valid_output p api lm now raw parsed ≡ ok output
        → (read : TriggerParseLlmOutput) × (validate_type_fields read ≡ ok output)
    valid_output-validated raw parsed output h =
        elim (Result-cases (lm.read_fields parsed >>= validate_type_fields)) [
          | inl (e, failed) ↦
              let bad : rejected p api lm now raw
                    ("Invalid trigger parse output: " <> lm.show_exception e)
                  ≡ ok output =
                rw (valid_output, failed) at h in
              let (x, y, z) = >>=-eq-ok (log_failed_parse p api lm now raw) _ bad in cc
          | inr (found, read) ↦
              let good : Path (Result TriggerParseLlmOutput) (ok found) (ok output) =
                rw (valid_output, read) at h in
              let (fields, taken, validated) =
                >>=-eq-ok (lm.read_fields parsed) validate_type_fields read in
              (fields, cc)
        ]

    parse_trigger_json-IsParseError :
        (raw timezone : String)
        → p.zones.known timezone ≡ true
        → FailsOnly IsParseError (parse_trigger_json p api lm now raw timezone)
    unfolding parse_trigger_json
    parse_trigger_json-IsParseError raw timezone known = elim (Result-cases (lm.loads raw)) [
      | inl (e, failed) ↦ rw (parse_trigger_json, failed) tt
      | inr (parsed, loaded) ↦
          rw (parse_trigger_json, loaded)
            (FailsOnly->>= IsParseError (valid_output p api lm now raw parsed) _
              (valid_output-IsParseError raw parsed)
              (λ output valid.
                let (read, validated) = valid_output-validated raw parsed output valid in
                FailsOnly->>= IsParseError
                  (valid_spec p api lm now raw (trigger_spec_from_llm_output p output timezone)) _
                  (rw (trigger_spec_from_llm_output-validated p read output timezone validated)
                    (meant-IsParseError raw read timezone read.kind known refl))
                  (λ spec stood.
                    FailsOnly->>= IsParseError (checked_cron p api lm now raw spec) _
                      (checked_cron-IsParseError raw spec)
                      (λ x checked. schedulable-IsParseError raw spec))))
    ]

    extract_content-IsParseError :
        (content : Option String) → FailsOnly IsParseError (extract_content p api lm now content)
    extract_content-IsParseError none = tt
    extract_content-IsParseError (some content) = elim (Bool-cases (content == "")) [
      | inl empty ↦ rw empty tt
      | inr filled ↦ rw filled tt
    ]

    try_formats-IsParseError :
        (formats : List ResponseFormat) (messages : List Message) (last : Exn) (n : ℕ)
        → FailsOnly IsParseError (try_formats p api lm now formats messages last n).0
    unfolding try_formats
    try_formats-IsParseError [] messages last n = tt
    try_formats-IsParseError (format ∷ formats) messages last n =
        elim (Result-cases (lm.completion n messages format)) [
          | inl (e, failed) ↦
              rw (failed, try_formats) (try_formats-IsParseError formats messages e (suc n))
          | inr (content, given) ↦ rw (given, try_formats) (extract_content-IsParseError content)
        ]

    pub parse_once-IsParseError :
        (timezone : String) (messages : List Message) (n : ℕ)
        → p.zones.known timezone ≡ true
        → FailsOnly IsParseError (parse_once p api lm now timezone messages n).0
    unfolding parse_once call_llm
    parse_once-IsParseError timezone messages n known =
        FailsOnly->>= IsParseError (call_llm p api lm now messages n).0 _
          (try_formats-IsParseError (json_schema ∷ json_object ∷ no_format ∷ []) messages
            (other "None") n)
          (λ raw called. parse_trigger_json-IsParseError raw timezone known)

    retried-IsParseError :
        (r : Result StructuredTriggerSpec × ℕ)
        (again : String → ℕ → Result StructuredTriggerSpec × ℕ)
        → FailsOnly IsParseError r.0
        → ((message : String) → FailsOnly IsParseError (again message r.1).0)
        → FailsOnly IsParseError (retried p api lm now r again).0
    retried-IsParseError (err (trigger_parse_error message), n) again h k = k message
    retried-IsParseError (r, n) again h k = h

    pub attempts-IsParseError :
        (retries : ℕ) (timezone : String) (messages : List Message) (n : ℕ)
        → p.zones.known timezone ≡ true
        → FailsOnly IsParseError (attempts p api lm now retries timezone messages n).0
    unfolding attempts
    attempts-IsParseError zero timezone messages n known =
        parse_once-IsParseError timezone messages n known
    attempts-IsParseError (suc retries) timezone messages n known =
        retried-IsParseError (parse_once p api lm now timezone messages n) _
          (parse_once-IsParseError timezone messages n known)
          (λ message.
            attempts-IsParseError retries timezone
              (messages ++ correction p api lm now message ∷ [])
              (parse_once p api lm now timezone messages n).1 known)
