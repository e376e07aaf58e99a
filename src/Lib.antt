-- ===== src/Lib.antt =====
-- schedulerlm: a service that calls webhooks on once, cron and interval triggers.
--
-- A request (app/routes) runs in the database session of `get_db`, under the row level security of
-- PostgreSQL; it writes the tables `scheduled_tasks` and `task_history` and leaves background tasks
-- that register or unregister a schedule with APScheduler. A schedule fires
-- `execute_scheduled_task` (app/scheduler/executor.py), which calls the webhook in a session of its
-- own, with the rights of the scheduler, and writes the history.
--
-- Which file models what:
--   Base, Base/*             lists, options and tests on the native numbers
--   Python/*                 what the program uses of Python: exceptions, datetimes, dicts, texts,
--                            regular expressions
--   Enums, Config            app/enums.py, app/config/settings.py
--   Auth/Jwt                 app/auth/jwt.py
--   Schemas/Tasks, Execution app/schemas/tasks.py, execution.py
--   Db/Models, Migrations    app/db/models, and the policies and the check constraint of alembic/versions
--                            as tests on rows, which the sessions use
--   Db/Schema, Db/Schema/*   alembic/versions: the upgrade and downgrade of each revision as statements on
--                            a catalog, conditions in SQL's logic, and the row level security
--   Db/Runner                app/db/migrations.py, alembic/env.py
--   Db/Session               app/db/dependencies.py, rls.py, scope.py: sessions, statements, `get_db`
--   Scheduler/Triggers       app/scheduler/triggers.py
--   Scheduler/Service        app/scheduler/service.py: registering schedules
--   Scheduler/Executor       app/scheduler/executor.py: firing a webhook, and a run in its session
--   Scheduler/Execution      `execute_scheduled_task` of that file, whole
--   Services/TaskHistory     app/services/task_history.py
--   Routes/Tasks, Requests   app/routes/tasks.py: the handlers, and a request in its session
--   Auth/Middleware          app/auth/middleware.py and `get_current_user` of app/auth/dependencies.py
--   Schemas/History          app/schemas/history.py
--   Routes/History           app/routes/history.py
--   Schemas/TriggerParse     app/schemas/trigger_parse.py
--   Services/TriggerParse    app/services/trigger_parse.py: answers of the model, calls and retries
--   Services/TextParsing     the rest of that file: a text as a whole
--   Parsing/RelativeSchedule app/parsing/relative_schedule.py
--   Prompts/Loader           app/prompts/loader.py
--   Routes/TriggerParse      app/routes/trigger_parse.py
--   Routes/Api               app/routes/v1.py, api.py: every route behind the authentication
--   Routes/Health, Scripts   app/routes/health.py, scripts/mint_dev_jwt.py
--   Db/Engine                app/db/engine.py
--   System, System/*         requests and scheduled runs in any order, and what the tables and the
--                            schedules then are
--   Application              the lifespan of app/main.py, and how it sets up the scheduler
--   Tests, Tests/*           concrete data, and the theorems at it
-- A directory beside a file holds parts of it, and the lemmas on it in files named for what they prove.
--
-- Code that uses a session is an `Action`, a function from the session to a result and the session
-- after it: what was done before a raise stays done until the session is closed. Python's exceptions
-- are values of `Exn`; the text of a ValueError leaves out the value that it names.
-- Clock readings and the ids of `uuid4` are arguments, and the readings of one request are equal.
--
-- Parameters stand for what is not in the repository: the time zone database and the texts of UUIDs
-- and datetimes (`Platform`), PyJWT (`Jwt`), the triggers of APScheduler (`Triggers`) and its data
-- store (`Schedules`), the HTTP client (`HttpClient`), the language model with what reads its answers
-- (`LanguageModel`), the prompt's file (`PromptFiles`), the Unicode database (`Unicode`), asyncpg
-- (`Driver`), Alembic (`Alembic`), how the calls of an application's start and end go (`Outside`), and
-- the sort of the database. The statements of SQL do what PostgreSQL documents. What the program
-- relies on is a named hypothesis: `UuidRereads`, `IsoRereads`, `IsoHasNoZ`, `FiresOnce`, `Advances`,
-- `IsSort`, `Decodes`, `IsLawfulSchedules`, `HasDistinctTexts`, `IsOrderly`, `IsReadable`, `AnswersWell`, `AnswersAlike`,
-- `IsRecordable`, `IsPresentable` and `IsDocumented`.
--
-- A datetime is a number of microseconds; Python's limit to the year 9999 is left out where the
-- program only passes a datetime on. The loop over fire times has no bound in the source: the model
-- has fuel, one unit for each call of `next()`, and `none` says that it ran out. A trigger whose fire
-- times advance passes now after as many calls as there are microseconds up to it, so that many units,
-- and one for each time that is asked for, are enough.
--
-- A call of the language model is answered by a function of its number in the request, its messages
-- and its format; another request may be answered by another function, so a property of two requests
-- says what it takes of both.
--
-- The commit of `get_db` is modelled before the response and its background tasks, and a value that its
-- column cannot hold as a failure of the statement that writes it. FastAPI from 0.118 on runs the code
-- after the `yield`, and so the commit, after both: what a request that fails then leaves differs, so the
-- properties on schedules and on creating a task take triggers that the history can hold, and commits
-- that succeed.
--
-- Not modelled: FastAPI's matching of paths and reading of bodies, settings read from the environment,
-- logging, the offline mode of alembic/env.py, the validation of a stored trigger's type and
-- configuration by `TaskResponse` (rows that the program writes pass it), the RETURNING that SQLAlchemy
-- adds to an INSERT, with the policy it asks for, and the concurrency of requests: a session sees no
-- commit of another.
-- The task routes take the parser of a text as a parameter; Routes/TriggerParse/Preview gives it the
-- one of Services/TextParsing.
pub mod Base
pub mod Python
pub mod Enums
pub mod Config
pub mod Auth
pub mod Schemas
pub mod Db
pub mod Scheduler
pub mod Parsing
pub mod Prompts
pub mod Services
pub mod Routes
pub mod System
pub mod Application
pub mod Scripts
pub mod Tests
