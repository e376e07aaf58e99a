-- ===== src/Tests/Auth.antt =====
-- The theorems on authentication, at concrete requests.
use schedualerl_lm.Base.{refl, ◌≡◌, String, some}
use schedualerl_lm.Base.Int.{ℤ}
use schedualerl_lm.Auth.Jwt.{encode_token, decode_token}
use schedualerl_lm.Auth.Middleware.{HttpRequest, authenticate}
use schedualerl_lm.Auth.Middleware.Tokens.{Shows, authenticate-Shows, authenticate-webhook_request}
use schedualerl_lm.Config.{default_auth}
use schedualerl_lm.Python.Dict.{text}
use schedualerl_lm.Python.Result.{ok}
use schedualerl_lm.Scheduler.Executor.{webhook_request}
use schedualerl_lm.Scripts.{minted_token}
use schedualerl_lm.Tests.{platform, plain_jwt, executor, clock, once_task}
use schedualerl_lm.Base.{[], ◌∷◌}

abbrev pub request : HttpRequest
request = record { path = "/api/v1/tasks"; authorization = some "Bearer token" }

abbrev pub show_number : ℤ → String
show_number n = "7"

authenticate-Shows_example : Shows plain_jwt show_number (default_auth "secret") request "ann"
unfolding authenticate decode_token
authenticate-Shows_example =
    authenticate-Shows plain_jwt show_number (default_auth "secret") request "ann" refl

authenticate-webhook_request_example :
    authenticate plain_jwt show_number executor.auth request ≡ ok "ann"
unfolding webhook_request encode_token
authenticate-webhook_request_example =
    authenticate-webhook_request platform plain_jwt show_number executor request clock once_task
      refl refl (record { decoded = ("sub", text "ann") ∷ []; decodes = refl; same_subject = refl })
      refl

-- A token of the script.
minted : minted_token plain_jwt (default_auth "secret") clock "ann" 24 ≡ "token"
unfolding minted_token
minted = refl
