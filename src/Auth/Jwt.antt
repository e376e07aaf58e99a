-- ===== src/Auth/Jwt.antt =====
-- app/auth/jwt.py. The package PyJWT is an interface; the clock reading is an argument.
use schedualerl_lm.Base.{ℕ, ◌+◌, ◌*◌, String, Option, List, [], ◌∷◌}
use schedualerl_lm.Config.{AuthSettings}
use schedualerl_lm.Python.Datetime.{Datetime, minute}
use schedualerl_lm.Python.Dict.{Dict, text, stamp, update}

-- `jwt.encode(payload, secret, algorithm)`, and `jwt.decode(token, secret, algorithms)`, where `none`
-- is a `PyJWTError`.
pub record Jwt : Type 0 where
  pub encode : Dict → String → String → String
  pub decode : String → String → List String → Option Dict

-- `timedelta(minutes=n)`, added to a datetime
abbrev pub add_minutes : Datetime → ℕ → Datetime
add_minutes d n = record d { wall = d.wall + n * minute }

module _ (jwt : Jwt) where
  -- `decode_token`
  unfoldable pub decode_token : String → AuthSettings → Option Dict
  decode_token token settings = jwt.decode token settings.jwt_secret (settings.jwt_algorithm ∷ [])

  -- The payload of `encode_token`.
  abbrev pub token_payload : Datetime → String → ℕ → Dict → Dict
  token_payload now sub minutes extra_claims =
      update (("sub", text sub) ∷ ("exp", stamp (add_minutes now minutes)) ∷ []) extra_claims

  -- `encode_token`, with `expires_in` in minutes
  unfoldable pub encode_token : AuthSettings → Datetime → String → ℕ → Dict → String
  encode_token settings now sub minutes extra_claims =
      jwt.encode (token_payload now sub minutes extra_claims) settings.jwt_secret
        settings.jwt_algorithm
