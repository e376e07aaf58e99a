-- ===== src/Services/TriggerParse/Reaching.antt =====
-- When the attempts succeed: a model that answers well from some call on is asked until it does.
use schedualerl_lm.Base.{ℕ, ◌≡◌, String, false, List, ◌==◌, some}
use schedualerl_lm.Python.Datetime.{Datetime}
use schedualerl_lm.Python.Platform.{Platform}
use schedualerl_lm.Python.Result.{Result, ok, err}
use schedualerl_lm.Scheduler.Triggers.{Triggers}
use schedualerl_lm.Services.TriggerParse.{
  Message, ResponseFormat, LanguageModel, parse_trigger_json,
}

-- A result that is no exception.
abbrev pub Succeeds {ℓ} : {A : Type ℓ} → Result A → Type 0
Succeeds (ok a) = Unit
Succeeds (err e) = ⊥

module _ (p : Platform) (api : Triggers) (lm : LanguageModel) (now : Datetime) where
  -- A call that is answered, with a text that stands for a trigger.
  abbrev pub AnswersWell : String → ℕ → Type 0
  AnswersWell timezone n =
      (messages : List Message) (form : ResponseFormat)
      → (content : String) × (lm.completion n messages form ≡ ok (some content))
        × ((content == "") ≡ false)
        × Succeeds (parse_trigger_json p api lm now (lm.strip content) timezone)
