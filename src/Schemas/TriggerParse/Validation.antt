-- ===== src/Schemas/TriggerParse/Validation.antt =====
-- What a validated answer stands for.
use schedualerl_lm.Base.{◌≡◌, refl, String, true, Option, none, some, arith, get_or, if◌then◌else◌}
use schedualerl_lm.Base.Int.{ℤ, pos, is_positive, mul_ℕ}
use schedualerl_lm.Enums.{TriggerType, once, cron, interval}
use schedualerl_lm.Python.Platform.{Platform}
use schedualerl_lm.Python.Result.{Result, ok, err, key_error, value_error}
use schedualerl_lm.Schemas.Tasks.{
  StructuredTriggerSpec, once_trigger, cron_trigger_spec, interval_trigger_spec,
  new_interval_trigger_spec, new_cron_trigger_spec,
}
use schedualerl_lm.Schemas.TriggerParse.{
  IntervalUnit, seconds, minutes, hours, days, weeks, interval_unit_seconds, TriggerParseLlmOutput,
  validate_type_fields, trigger_spec_from_llm_output,
}

-- A positive number of units is a positive number of seconds.
positive_seconds :
    (n : ℤ) (unit : IntervalUnit)
    → is_positive n ≡ true
    → is_positive (mul_ℕ n (interval_unit_seconds unit)) ≡ true
positive_seconds n seconds h = ground arith
positive_seconds n minutes h = ground arith
positive_seconds n hours h = ground arith
positive_seconds n days h = ground arith
positive_seconds n weeks h = ground arith

module _ (p : Platform) where
  -- The specification of each kind of answer, or the exception of the library that refuses it.
  abbrev pub meant : TriggerParseLlmOutput → String → Result StructuredTriggerSpec
  meant output timezone = elim output.kind [
    | cron ↦
        if p.zones.known timezone
        then ok (cron_trigger_spec (get_or output.cron_expr "") timezone)
        else err (key_error timezone)
    | interval ↦ ok (
        interval_trigger_spec (
          mul_ℕ (get_or output.interval_value (pos 0))
            (interval_unit_seconds (get_or output.interval_unit seconds))))
    | once ↦ elim (p.fromisoformat (get_or output.once_datetime "")) [
      | none ↦ err (value_error "Invalid isoformat string")
      | some d ↦ ok (once_trigger d)
    ]
  ]

  abbrev answer :
      String
      → TriggerType
      → Option String
      → Option ℤ
      → Option IntervalUnit
      → Option String
      → TriggerParseLlmOutput
  answer thought kind cron_expr value unit once_datetime = record {
    thought = thought;
    kind = kind;
    cron_expr = cron_expr;
    interval_value = value;
    interval_unit = unit;
    once_datetime = once_datetime;
  }

  validated-same :
      (t : String) (k : TriggerType) (c : Option String) (v : Option ℤ) (u : Option IntervalUnit)
      (d : Option String) (validated : TriggerParseLlmOutput)
      → validate_type_fields (answer t k c v u d) ≡ ok validated
      → answer t k c v u d ≡ validated
  unfolding validate_type_fields
  validated-same t cron c v u d validated h = ground arith
  validated-same t interval c v u d validated h = ground arith
  validated-same t once c v u d validated h = ground arith

  by_kind :
      (t : String) (k : TriggerType) (c : Option String) (v : Option ℤ) (u : Option IntervalUnit)
      (d : Option String) (timezone : String) (validated : TriggerParseLlmOutput)
      → validate_type_fields (answer t k c v u d) ≡ ok validated
      → trigger_spec_from_llm_output p (answer t k c v u d) timezone
        ≡ meant (answer t k c v u d) timezone
  unfolding validate_type_fields trigger_spec_from_llm_output new_cron_trigger_spec
      new_interval_trigger_spec
  by_kind t cron none v u d timezone validated h = ground arith
  by_kind t cron (some c) v u d timezone validated h = ground arith
  by_kind t interval c (some n) (some unit) d timezone validated h =
      let positive : is_positive n ≡ true = ground arith in
      ground (arith, positive_seconds n unit positive)
  by_kind t interval c _ _ d timezone validated h = ground arith
  by_kind t once c v u none timezone validated h = ground arith
  by_kind t once c v u (some d) timezone validated h = refl

  -- An answer that the validator accepted stands for the specification of its kind, or fails only
  -- because the time zone is unknown or the datetime's text is no ISO 8601 text: no assertion
  -- fails, and an interval is a positive number of seconds.
  pub trigger_spec_from_llm_output-validated :
      (output validated : TriggerParseLlmOutput) (timezone : String)
      → validate_type_fields output ≡ ok validated
      → trigger_spec_from_llm_output p validated timezone ≡ meant output timezone
  trigger_spec_from_llm_output-validated output validated timezone h =
      rw⁻¹
        (validated-same output.thought output.kind output.cron_expr output.interval_value
          output.interval_unit output.once_datetime validated h)
        (by_kind output.thought output.kind output.cron_expr output.interval_value
          output.interval_unit output.once_datetime timezone validated h)
