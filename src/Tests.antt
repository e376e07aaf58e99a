-- ===== src/Tests.antt =====
-- Concrete data for the tests: two users' tasks, and small stand-ins for the libraries.
pub mod Routes
pub mod Scheduler
pub mod Services
pub mod Auth
pub mod Parsing
pub mod Phrases
pub mod Texts
pub mod Prompts
pub mod Engine
pub mod Api
pub mod History
pub mod Consistency
pub mod Schema
pub mod Application
use schedualerl_lm.Base.{
  ℕ, String, Bool, true, false, Option, none, some, List, [], ◌∷◌, ◌==◌, eqb, leb, not,
  if◌then◌else◌,
}
use schedualerl_lm.Base.Int.{ℤ, pos}
use schedualerl_lm.Auth.Jwt.{Jwt}
use schedualerl_lm.Config.{default_auth, default_scheduler}
use schedualerl_lm.Db.Models.{ScheduledTask, TaskHistory}
use schedualerl_lm.Db.Session.{Tables, WebhookRequest}
use schedualerl_lm.Enums.{task_created, task_deactivated}
use schedualerl_lm.Python.Datetime.{Datetime, Zones, utc, iana, day, hour}
use schedualerl_lm.Python.Dict.{Dict, text, number}
use schedualerl_lm.Python.Platform.{Platform}
use schedualerl_lm.Python.Result.{Result, ok, err, trigger_parse_error}
use schedualerl_lm.Routes.Requests.{App, Inputs}
use schedualerl_lm.Scheduler.Executor.{Executor, HttpClient, Reply, response, request_failed}
use schedualerl_lm.Scheduler.Service.{Schedules}
use schedualerl_lm.Scheduler.Triggers.{Triggers}
use schedualerl_lm.Schemas.Tasks.{
  StructuredTriggerSpec, interval_trigger_spec, TaskCreate, TriggerSpec, structured,
}
use schedualerl_lm.Services.TaskHistory.{lifecycle_row}

abbrev pub at_utc : ℕ → Datetime
at_utc w = record { wall = w; tzinfo = some utc }

abbrev pub clock : Datetime
clock = at_utc 63900000000000000

abbrev pub tomorrow : Datetime
tomorrow = at_utc 63900086400000000

-- Berlin is an hour ahead all year.
abbrev pub two_zones : Zones
two_zones = record {
  known = λ name. name == "Europe/Berlin";
  offset = λ name w. 90000000000;
  offset_at = λ name i. 90000000000;
}

abbrev pub platform : Platform
platform = record {
  zones = two_zones;
  local_zone = utc;
  str_uuid = λ u. if eqb u 7 then "07" else "08";
  parse_uuid = λ s. if s == "07" then some 7 else if s == "08" then some 8 else none;
  isoformat = λ d. "2025-12-02T00:00:00+00:00";
  fromisoformat = λ s. if s == "2025-12-02T00:00:00+00:00" then some tomorrow else none;
}

abbrev pub plain_jwt : Jwt
plain_jwt = record {
  encode = λ payload secret algorithm. "token";
  decode =
      λ token secret algorithms. if token == "token" then some (("sub", text "ann") ∷ []) else none;
}

-- A trigger is the list of its fire times.
abbrev next_time : List Datetime → Option Datetime × List Datetime
next_time [] = (none, [])
next_time (d ∷ rest) = (some d, rest)

abbrev pub listed_triggers : Triggers
listed_triggers = record {
  Trigger = List Datetime;
  date_trigger = λ d. d ∷ [];
  from_crontab = λ now expression tz. ok (now ∷ tomorrow ∷ []);
  interval_trigger = λ now seconds. ok (now ∷ tomorrow ∷ []);
  next = next_time;
}

abbrev pub function_schedules : Schedules (List Datetime)
function_schedules = record {
  Store = String → Option (List Datetime);
  add_schedule = λ s id t. ok (λ j. if id == j then some t else s j);
  remove_schedule = λ s id. ok (λ j. if id == j then none else s j);
  trigger_of = λ s id. s id;
}

-- Of two addresses one answers 200, the other 500.
abbrev pub client : HttpClient
client = record {
  get = λ request. if request.url == "https://a.test/hook" then response 200 else response 500;
  raises_for_status = λ status. leb 400 status;
  show_status = λ status. if eqb status 500 then "500" else "200";
}

abbrev pub executor : Executor
executor = record {
  auth = default_auth "secret";
  scheduler = default_scheduler;
  http_client = client;
}

abbrev pub app : App
app = record {
  platform = platform;
  jwt = plain_jwt;
  triggers = listed_triggers;
  executor = executor;
  sort_rows = λ order rows. rows;
  parse_text = λ phrase tz.
      if phrase == "every minute"
      then ok (interval_trigger_spec (pos 60))
      else err (trigger_parse_error "Could not parse the trigger");
  fuel = 10;
}

abbrev pub inputs : Inputs
inputs = record { now = clock; task_uuid = 9; history_uuid = 21 }

-- An active once task of `ann`, and an idle interval task of `bob`.
abbrev pub once_task : ScheduledTask
once_task = record {
  id = 7;
  user_id = "ann";
  webhook_url = "https://a.test/hook";
  parameters = ("k", "v") ∷ [];
  trigger_type = "once";
  trigger_config = ("run_at", text "2025-12-02T00:00:00+00:00") ∷ [];
  next_run_at = some tomorrow;
  is_active = true;
  created_at = clock;
  updated_at = clock;
}

abbrev pub idle_task : ScheduledTask
idle_task = record {
  id = 8;
  user_id = "bob";
  webhook_url = "https://b.test/hook";
  parameters = [];
  trigger_type = "interval";
  trigger_config = ("seconds", number (pos 60)) ∷ [];
  next_run_at = none;
  is_active = false;
  created_at = clock;
  updated_at = clock;
}

abbrev pub bob_row : TaskHistory
bob_row = lifecycle_row 20 clock "bob" 8 task_deactivated

abbrev pub tables : Tables
tables = record { tasks = once_task ∷ idle_task ∷ []; history = bob_row ∷ [] }

abbrev pub new_body : TaskCreate
new_body = record {
  webhook_url = "https://b.test/hook";
  parameters = [];
  trigger = structured (interval_trigger_spec (pos 60));
}
