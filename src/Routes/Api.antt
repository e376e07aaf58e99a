-- ===== src/Routes/Api.antt =====
-- The routes under `/api/v1` (app/routes/v1.py, and app/routes/api.py for `/me`) behind the
-- authentication that `create_app` of app/main.py puts before them. FastAPI's matching of paths and
-- reading of bodies is left out: a request comes with its route and its arguments.
pub mod Callers
use schedualerl_lm.Base.{ℕ, String, Bool, Option, some, List}
use schedualerl_lm.Base.Int.{ℤ}
use schedualerl_lm.Auth.Middleware.{HttpRequest, authenticate}
use schedualerl_lm.Db.Models.{TaskHistory}
use schedualerl_lm.Db.Session.{Tables, Session, new_session, get_db}
use schedualerl_lm.Python.Platform.{Uuid}
use schedualerl_lm.Python.Result.{Result, ok, err, ◌>>=◌}
use schedualerl_lm.Routes.History.{list_history, list_task_history}
use schedualerl_lm.Routes.Requests.{App, Inputs, TaskRequest, TaskReply, serve}
use schedualerl_lm.Routes.TriggerParse.{parse_trigger}
use schedualerl_lm.Schemas.History.{HistoryListQuery, HistoryListResponse}
use schedualerl_lm.Schemas.TriggerParse.{TriggerParseRequest, TriggerParseResponse}
use schedualerl_lm.Services.TextParsing.{Parser}

-- `MeResponse`
pub record MeResponse : Type 0 where
  pub user_id : String

pub data ApiRequest : Type 0 where
  me : ApiRequest
  on_tasks : TaskRequest → ApiRequest
  on_history : HistoryListQuery → ApiRequest
  on_task_history : Uuid → HistoryListQuery → ApiRequest
  on_triggers : TriggerParseRequest → ApiRequest

pub data ApiReply : Type 0 where
  me_reply : MeResponse → ApiReply
  task_reply : TaskReply → ApiReply
  history_reply : HistoryListResponse → ApiReply
  trigger_reply : TriggerParseResponse → ApiReply

-- What the routes use: the application, the parser of texts, the database's sort of the history, and
-- `str` of a number.
pub record Service : Type 1 where
  pub app : App
  pub parser : Parser
  pub sort_history : Bool → List TaskHistory → List TaskHistory
  pub show_number : ℤ → String

abbrev in_reply : {A : Type 0} → (A → ApiReply) → Result A × Session → Result ApiReply × Session
in_reply reply (r, s) = ((r >>= λ a. ok (reply a)), s)

-- A handler with no database session.
abbrev apart : {A : Type 0} → (A → ApiReply) → Tables → Result A → Result ApiReply × Session
apart reply tables r = ((r >>= λ a. ok (reply a)), new_session tables)

module _ (service : Service) (inputs : Inputs) where
  open service use {app, parser, sort_history, show_number}

  -- `me`
  abbrev me_of : String → Result MeResponse
  me_of user_id = ok (record { user_id = user_id })

  -- The handler of the route, for the current user.
  unfoldable pub handle : String → Tables → ApiRequest → Result ApiReply × Session
  unfolding serve get_db list_history list_task_history parse_trigger
  handle user_id tables me = apart me_reply tables (me_of user_id)
  handle user_id tables (on_tasks request) =
      in_reply task_reply (serve app inputs user_id tables request)
  handle user_id tables (on_history query) =
      in_reply history_reply
        (get_db (some user_id) tables (list_history app.platform sort_history query))
  handle user_id tables (on_task_history task_id query) =
      in_reply history_reply
        (get_db (some user_id) tables (list_task_history app.platform sort_history task_id query))
  handle user_id tables (on_triggers body) =
      apart trigger_reply tables (parse_trigger parser inputs.now body)

  -- A request as it comes in: nothing runs before its user is known.
  unfoldable pub answer : HttpRequest → Tables → ApiRequest → Result ApiReply × Session
  unfolding authenticate handle
  answer http tables request = elim (authenticate app.jwt show_number app.executor.auth http) [
    | err e ↦ (err e, new_session tables)
    | ok user_id ↦ handle user_id tables request
  ]
