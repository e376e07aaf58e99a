-- ===== src/Scripts.antt =====
-- scripts/mint_dev_jwt.py, without the reading of its arguments.
use schedualerl_lm.Base.{ℕ, ◌+◌, ◌*◌, String, [], ◌∷◌}
use schedualerl_lm.Auth.Jwt.{Jwt}
use schedualerl_lm.Config.{AuthSettings}
use schedualerl_lm.Python.Datetime.{Datetime, hour}
use schedualerl_lm.Python.Dict.{text, stamp}

-- The token that `main` prints.
unfoldable pub minted_token : Jwt → AuthSettings → Datetime → String → ℕ → String
minted_token jwt settings now sub expires_in_hours =
    jwt.encode
      (("sub", text sub)
        ∷ ("exp", stamp (record now { wall = now.wall + expires_in_hours * hour }))
        ∷ [])
      settings.jwt_secret settings.jwt_algorithm
