-- ===== src/Routes/TriggerParse/Answers.antt =====
-- The route that parses a text answers, or fails with a 422.
use schedualerl_lm.Base.{◌≡◌}
use schedualerl_lm.Python.Datetime.{Datetime}
use schedualerl_lm.Python.Result.{Exn, http_exception, Result}

abbrev pub IsUnprocessable : Exn → Type 0
IsUnprocessable (http_exception status detail) = status ≡ 422
IsUnprocessable _ = ⊥
