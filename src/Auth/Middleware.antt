-- ===== src/Auth/Middleware.antt =====
-- app/auth/middleware.py, and `get_current_user` of app/auth/dependencies.py: what a request must show
-- before a handler runs.
pub mod Tokens
use Prim.Native.String.{len, slice}
use package.text.Mathlib.Text.{starts_with}
use schedualerl_lm.Base.{
  ℕ, String, Bool, true, false, ◌||◌, eqb, Option, none, some, ◌==◌, if◌then◌else◌,
}
use schedualerl_lm.Base.Int.{ℤ, pos, negsuc}
use schedualerl_lm.Auth.Jwt.{Jwt, decode_token}
use schedualerl_lm.Config.{AuthSettings}
use schedualerl_lm.Python.Dict.{Dict, Value, text, number, stamp, get}
use schedualerl_lm.Python.Result.{Result, ok, err, http_exception}

-- The path of a request, and its header `Authorization`.
pub record HttpRequest : Type 0 where
  pub path : String
  pub authorization : Option String

-- A response of the middleware, or the rest of the application, with `request.state.user_id`.
pub data Dispatched : Type 0 where
  unauthorized : String → Dispatched
  call_next : Option String → Dispatched

-- `request.url.path in PUBLIC_PATHS`
abbrev pub is_public : String → Bool
is_public path = path == "/health" || path == "/docs" || path == "/openapi.json" || path == "/redoc"

abbrev is_zero : ℤ → Bool
is_zero (pos n) = eqb n 0
is_zero (negsuc n) = false

-- The token of a header that starts with `Bearer `.
abbrev pub bearer_token : Option String → Option String
bearer_token none = none
bearer_token (some header) =
    if starts_with header "Bearer " then some (slice header 7 (len header)) else none

module _ (jwt : Jwt) (show_number : ℤ → String) where
  -- `payload.get("sub")`, and `str` of it: `none` if it is missing or falsy. A claim is not a datetime.
  abbrev pub subject : Option Value → Option String
  subject (some (text s)) = if s == "" then none else some s
  subject (some (number n)) = if is_zero n then none else some (show_number n)
  subject _ = none

  abbrev pub checked : Option Dict → Dispatched
  checked none = unauthorized "Invalid token"
  checked (some payload) = elim (subject (get payload "sub")) [
    | none ↦ unauthorized "Missing sub claim"
    | some user_id ↦ call_next (some user_id)
  ]

  -- `AuthMiddleware.dispatch`
  unfoldable pub dispatch : AuthSettings → HttpRequest → Dispatched
  dispatch settings request =
      if is_public request.path then call_next none else elim (bearer_token request.authorization) [
        | none ↦ unauthorized "Missing bearer token"
        | some token ↦ checked (decode_token jwt token settings)
      ]

  -- `get_current_user`
  abbrev pub get_current_user : Option String → Result String
  get_current_user none = err (http_exception 401 "Not authenticated")
  get_current_user (some user_id) =
      if user_id == "" then err (http_exception 401 "Not authenticated") else ok user_id

  abbrev pub current_user_of : Dispatched → Result String
  current_user_of (unauthorized detail) = err (http_exception 401 detail)
  current_user_of (call_next user_id) = get_current_user user_id

  -- The user that a handler of a protected route runs for.
  unfoldable pub authenticate : AuthSettings → HttpRequest → Result String
  unfolding dispatch
  authenticate settings request = current_user_of (dispatch settings request)
