-- ===== src/Application.antt =====
-- app/main.py and the rest of app/scheduler/service.py: the start and the end of the application. The
-- calls of libraries are an interface that says how each of them ends; what was done is a list of
-- events.
pub mod Releasing
use schedualerl_lm.Base.{String, ◌<>◌, Bool, true, false, Option, some, none, List, [], ◌∷◌, ◌++◌}
use schedualerl_lm.Base.Int.{ℤ}
use schedualerl_lm.Config.{DatabaseSettings, SchedulerSettings}
use schedualerl_lm.Python.Result.{Result, ok, err}

-- `_asyncpg_dsn`; how Python writes a number is an argument.
abbrev pub asyncpg_dsn : (ℤ → String) → DatabaseSettings → String
asyncpg_dsn show_number db =
    "postgresql://"
    <> (db.user
        <> (":"
            <> (db.password
                <> ("@" <> (db.host <> (":" <> (show_number db.port <> ("/" <> db.name))))))))

-- What `create_scheduler` hands to `AsyncScheduler`, beside the data store: the URL of the event
-- broker, and the identity, which is left out for none.
abbrev pub create_scheduler :
    (ℤ → String) → DatabaseSettings → SchedulerSettings → String × Option String
create_scheduler show_number db settings = (asyncpg_dsn show_number db, settings.scheduler_id)

pub data Event : Type 0 where
  engine_created : Event
  scheduler_created : Event
  client_opened : Event
  scheduler_entered : Event
  executor_set : Event
  task_configured : Event
  scheduler_started : Event
  served : Event
  client_closed : Event
  scheduler_left : Event
  engine_disposed : Event

-- How the calls end. The application serves until it is asked to stop, or is torn down by an
-- exception.
pub record Outside : Type 0 where
  pub connect_db : Result (Unit {0})
  pub make_scheduler : Result (Unit {0})
  pub enter_scheduler : Result (Unit {0})
  pub configure_task : Result (Unit {0})
  pub start_in_background : Result (Unit {0})
  pub serve : Result (Unit {0})
  pub close_client : Result (Unit {0})
  pub leave_scheduler : Result (Unit {0})
  pub dispose_engine : Result (Unit {0})

-- Code that may raise, with the events up to then.
abbrev pub Task : Type 0
Task = List Event → Result (Unit {0}) × List Event

abbrev pub call : Event → Result (Unit {0}) → Task
call event (ok _) log = (ok tt, log ++ event ∷ [])
call event (err e) log = (err e, log)

abbrev pub continue : Task → Result (Unit {0}) × List Event → Result (Unit {0}) × List Event
continue next (ok _, log) = next log
continue next (err e, log) = (err e, log)

infixl 5 ◌>>◌
abbrev pub ◌>>◌ : Task → Task → Task
◌>>◌ m next log = continue next (m log)

-- The result of a `finally` block is that of the body, unless the block raises.
abbrev pub after_cleanup :
    Result (Unit {0}) → Result (Unit {0}) × List Event → Result (Unit {0}) × List Event
after_cleanup r (ok _, log) = (r, log)
after_cleanup r (err e, log) = (err e, log)

-- `try: … finally: …`, and `async with`
abbrev pub finally : Task → Task → Task
finally body cleanup log = let (r, after) = body log in after_cleanup r (cleanup after)

module _ (outside : Outside) where
  open outside use {
    connect_db, make_scheduler, enter_scheduler, configure_task, start_in_background, serve,
    close_client, leave_scheduler, dispose_engine,
  }

  -- `configure_scheduler`: `init_executor`, and then the call of the scheduler
  abbrev pub configure_scheduler : Task
  configure_scheduler = call executor_set (ok tt) >> call task_configured configure_task

  -- The body of `async with scheduler`.
  abbrev pub running : Task
  running =
      configure_scheduler
      >> call scheduler_started start_in_background
      >> finally (call served serve) (call client_closed close_client)

  -- `lifespan`
  unfoldable pub lifespan : Task
  lifespan =
      call engine_created connect_db
      >> call scheduler_created make_scheduler
      >> call client_opened (ok tt)
      >> (call scheduler_entered enter_scheduler
          >> finally running (call scheduler_left leave_scheduler))
      >> call engine_disposed dispose_engine
