-- ===== src/Db/Models.antt =====
-- app/db/models: the rows of `scheduled_tasks` and `task_history`. A text column that an enum fills
-- holds the member's value.
use schedualerl_lm.Base.{ℕ, String, Bool, Option, List}
use schedualerl_lm.Base.Int.{ℤ}
use schedualerl_lm.Python.Datetime.{Datetime}
use schedualerl_lm.Python.Dict.{Dict}
use schedualerl_lm.Python.Platform.{Uuid}

pub record ScheduledTask : Type 0 where
  pub id : Uuid
  pub user_id : String
  pub webhook_url : String
  pub parameters : List (String × String)
  pub trigger_type : String
  pub trigger_config : Dict
  pub next_run_at : Option Datetime
  pub is_active : Bool
  pub created_at : Datetime
  pub updated_at : Datetime

pub record TaskHistory : Type 0 where
  pub id : Uuid
  pub user_id : String
  pub task_id : Uuid
  pub event_type : String
  pub webhook_url : Option String
  pub trigger_type : Option String
  pub cron_expression : Option String
  pub cron_timezone : Option String
  pub interval_seconds : Option ℤ
  pub once_run_at : Option Datetime
  pub execution_source : Option String
  pub http_status : Option ℕ
  pub error_message : Option String
  pub success : Option Bool
  pub created_at : Datetime
