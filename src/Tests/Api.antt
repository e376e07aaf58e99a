-- ===== src/Tests/Api.antt =====
-- A request of `ann` through the whole API.
use schedualerl_lm.Base.{◌⊎◌, String}
use schedualerl_lm.Auth.Middleware.Tokens.{Shows}
use schedualerl_lm.Config.{default_auth}
use schedualerl_lm.Db.Session.Isolation.{SameForeign}
use schedualerl_lm.Routes.Api.{Service, on_tasks, answer}
use schedualerl_lm.Routes.Api.Callers.{IsRefused, answer_lem}
use schedualerl_lm.Routes.Requests.{delete}
use schedualerl_lm.Tests.{app, inputs, tables, plain_jwt}
use schedualerl_lm.Tests.Auth.{request, show_number}
use schedualerl_lm.Tests.Texts.{parser}

abbrev service : Service
service = record {
  app = app;
  parser = parser;
  sort_history = λ ascending rows. rows;
  show_number = show_number;
}

answer_lem_example :
    IsRefused service inputs tables (answer service inputs request tables (on_tasks (delete 7)))
    ⊎ ((u : String) × Shows plain_jwt show_number (default_auth "secret") request u
        × SameForeign u tables
            (answer service inputs request tables (on_tasks (delete 7))).1.committed)
answer_lem_example = answer_lem service inputs request tables (on_tasks (delete 7))
