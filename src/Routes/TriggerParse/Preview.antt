-- ===== src/Routes/TriggerParse/Preview.antt =====
-- What the route that parses a text shows is what creating a task with that text stores.
use mathlib.Core.Option
use mathlib.Core.Path.{subst, fun_ext}
use schedualerl_lm.Base.{ℕ, List, ◌≡◌, refl, String, true, false, Option, none, ◌==◌, eqb, find}
use schedualerl_lm.Db.Models.{ScheduledTask}
use schedualerl_lm.Db.Session.{Tables}
use schedualerl_lm.Enums.{trigger_value}
use schedualerl_lm.Python.Datetime.{Datetime, to_utc}
use schedualerl_lm.Python.Result.{Result, ok, err, trigger_parse_error, >>=-eq-ok}
use schedualerl_lm.Routes.Requests.{App, Inputs, serve, create}
use schedualerl_lm.Routes.Requests.Creation.{create_lem, created_with}
use schedualerl_lm.Routes.Requests.Effects.{effect_of}
use schedualerl_lm.Routes.Tasks.{or_unprocessable, new_task}
use schedualerl_lm.Routes.TriggerParse.{parse_trigger}
use schedualerl_lm.Scheduler.Triggers.{compute_next_run_at, trigger_config_from_spec}
use schedualerl_lm.Schemas.Tasks.{
  StructuredTriggerSpec, TaskCreate, text_trigger_spec, spec_type, model_dump,
}
use schedualerl_lm.Schemas.TriggerParse.{TriggerParseRequest, TriggerParseResponse}
use schedualerl_lm.Services.TaskHistory.{trigger_columns}
use schedualerl_lm.Services.TriggerParse.{Message, ResponseFormat}
use schedualerl_lm.Services.TextParsing.{Parser, parse_trigger_text_to_spec, parse_trigger_text}

-- An answer of a route that is no failure comes from the code under its `try`.
or_unprocessable-eq-ok {ℓ} :
    {A : Type ℓ} (r : Result A) {a : A} → or_unprocessable r ≡ ok a → r ≡ ok a
or_unprocessable-eq-ok (ok b) h = h
or_unprocessable-eq-ok (err (trigger_parse_error message)) h = cc
or_unprocessable-eq-ok (err e) h = h

-- The task that stores the columns of a response.
abbrev pub previewed_task :
    App → Inputs → String → TaskCreate → TriggerParseResponse → ScheduledTask
previewed_task app inputs user_id body response = record {
  id = inputs.task_uuid;
  user_id = user_id;
  webhook_url = body.webhook_url;
  parameters = body.parameters;
  trigger_type = trigger_value response.trigger_type;
  trigger_config = model_dump response.trigger_config;
  next_run_at = Option.map (to_utc app.platform.zones) response.next_run_at;
  is_active = true;
  created_at = inputs.now;
  updated_at = inputs.now;
}

-- What the language model answers to the calls that one request makes, numbered from 0.
abbrev pub Completion : Type 0
Completion = ℕ → List Message → ResponseFormat → Result (Option String)

-- The parser, asking a language model that gives these answers.
abbrev pub asking : Parser → Completion → Parser
asking parser answers = record parser { model = record parser.model { completion = answers } }

-- Two requests to the language model are answered alike, call by call.
abbrev pub AnswersAlike : Completion → Completion → Type 0
AnswersAlike first second =
    (n : ℕ) (messages : List Message) (form : ResponseFormat)
    → first n messages form ≡ second n messages form

module _ (app : App) (inputs : Inputs) (u : String) (parser : Parser) where
  -- The application with this parser.
  abbrev pub app_with : App
  app_with = record app {
    platform = parser.platform;
    triggers = parser.triggers;
    parse_text = parse_trigger_text_to_spec parser inputs.now;
  }

  -- Creating a task with the text stores what the response shows.
  abbrev pub StoresResponse : Tables → TaskCreate → TriggerParseResponse → Type 0
  StoresResponse t body response =
      effect_of (serve app_with inputs u t (create body))
      ≡ created_with app_with inputs u t (previewed_task app_with inputs u body response) (
          trigger_columns parser.platform (trigger_value response.trigger_type)
            (model_dump response.trigger_config))

  -- A text that the route parses.
  parsed-eq-ok :
      (phrase timezone : String) (response : TriggerParseResponse)
      → parse_trigger_text parser inputs.now phrase timezone ≡ ok response
      → (spec : StructuredTriggerSpec) × (next : Option Datetime) × (parse_trigger_text_to_spec
            parser inputs.now phrase timezone
          ≡ ok spec)
        × (compute_next_run_at parser.platform parser.triggers inputs.now spec ≡ ok next)
        × (record {
          trigger_type = spec_type spec;
          trigger_config = trigger_config_from_spec parser.platform spec;
          next_run_at = next;
        }
            ≡ response)
  unfolding parse_trigger_text
  parsed-eq-ok phrase timezone response h =
      let (spec, found, rest) =
        >>=-eq-ok (parse_trigger_text_to_spec parser inputs.now phrase timezone) _ h in
      let (next, computed, last) =
        >>=-eq-ok (compute_next_run_at parser.platform parser.triggers inputs.now spec) _ rest in
      (spec, next, found, computed, cc)

  -- The same parser, and so the same answers.
  previewed_again :
      (t : Tables) (body : TaskCreate) (asked : TriggerParseRequest)
      (response : TriggerParseResponse)
      → (u == "") ≡ false
      → find (λ x. eqb x.id inputs.task_uuid) t.tasks ≡ none
      → body.trigger ≡ text_trigger_spec asked.text asked.timezone
      → parse_trigger parser inputs.now asked ≡ ok response
      → StoresResponse t body response
  unfolding parse_trigger new_task
  previewed_again t body asked response filled fresh about shown =
      let (spec, next, found, computed, same) =
        parsed-eq-ok asked.text asked.timezone response (or_unprocessable-eq-ok _ shown) in
      subst (StoresResponse t body) same
        (rw (create_lem app_with inputs u t body filled fresh, about, found, computed) refl)

module _ (app : App) (inputs : Inputs) (u : String) (parser : Parser) where
  -- When the route that parses a text answers, and the language model, asked again, gives the same
  -- answers to the same calls, creating a task with that text and time zone at the same time, for
  -- a user id that is not empty and a fresh task id, has the effect of creating a task with
  -- exactly the trigger type, the configuration and the next run of that answer, which fails only
  -- if the history cannot hold these.
  pub serve-create-previewed :
      (answers : Completion) (t : Tables) (body : TaskCreate) (asked : TriggerParseRequest)
      (response : TriggerParseResponse)
      → AnswersAlike parser.model.completion answers
      → (u == "") ≡ false
      → find (λ x. eqb x.id inputs.task_uuid) t.tasks ≡ none
      → body.trigger ≡ text_trigger_spec asked.text asked.timezone
      → parse_trigger parser inputs.now asked ≡ ok response
      → StoresResponse app inputs u (asking parser answers) t body response
  serve-create-previewed answers t body asked response alike filled fresh about shown =
      let same : parser.model.completion ≡ answers =
        fun_ext (λ n. fun_ext (λ messages. fun_ext (λ form. alike n messages form))) in
      subst (λ c. StoresResponse app inputs u (asking parser c) t body response) same
        (previewed_again app inputs u parser t body asked response filled fresh about shown)
