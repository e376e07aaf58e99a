-- ===== src/Enums.antt =====
-- app/enums.py. A `StrEnum` member is equal to its text, and the database columns hold the texts, so
-- each enum comes with its values and with the member that a text is (`match text: case Enum.X`).
use schedualerl_lm.Base.{String, ◌≡◌, refl, Option, none, some, ◌==◌, if◌then◌else◌}

pub data TriggerType : Type 0 where
  once cron interval : TriggerType

pub data TaskSortField : Type 0 where
  created_at next_run_at updated_at : TaskSortField

pub data SortOrder : Type 0 where
  asc desc : SortOrder

pub data HealthStatus : Type 0 where
  ok unavailable : HealthStatus

pub data LogLevel : Type 0 where
  debug info warning error critical : LogLevel

pub data TaskHistoryEventType : Type 0 where
  task_created task_activated task_deactivated task_deleted execution : TaskHistoryEventType

pub data ExecutionSource : Type 0 where
  scheduled manual : ExecutionSource

abbrev pub trigger_value : TriggerType → String
trigger_value once = "once"
trigger_value cron = "cron"
trigger_value interval = "interval"

abbrev pub trigger_member : String → Option TriggerType
trigger_member s =
    if s == "once"
    then some once
    else if s == "cron"
    then some cron
    else if s == "interval"
    then some interval
    else none

abbrev pub event_value : TaskHistoryEventType → String
event_value task_created = "task_created"
event_value task_activated = "task_activated"
event_value task_deactivated = "task_deactivated"
event_value task_deleted = "task_deleted"
event_value execution = "execution"

abbrev pub event_member : String → Option TaskHistoryEventType
event_member s =
    if s == "task_created"
    then some task_created
    else if s == "task_activated"
    then some task_activated
    else if s == "task_deactivated"
    then some task_deactivated
    else if s == "task_deleted"
    then some task_deleted
    else if s == "execution"
    then some execution
    else none

abbrev pub source_value : ExecutionSource → String
source_value scheduled = "scheduled"
source_value manual = "manual"

abbrev pub source_member : String → Option ExecutionSource
source_member s =
    if s == "scheduled" then some scheduled else if s == "manual" then some manual else none

pub trigger_member-trigger_value : (k : TriggerType) → trigger_member (trigger_value k) ≡ some k
trigger_member-trigger_value once = refl
trigger_member-trigger_value cron = refl
trigger_member-trigger_value interval = refl

pub event_member-event_value : (k : TaskHistoryEventType) → event_member (event_value k) ≡ some k
event_member-event_value task_created = refl
event_member-event_value task_activated = refl
event_member-event_value task_deactivated = refl
event_member-event_value task_deleted = refl
event_member-event_value execution = refl
