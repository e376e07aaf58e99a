-- ===== src/Auth/Middleware/Tokens.antt =====
-- Which requests are authenticated, and as whom.
use package.text.Mathlib.TextPositions.{starts_with-append, slice-append_right, len-append}
use schedualerl_lm.Base.{
  ◌≡◌, ap, String, false, Bool-cases, Option-cases, inl, inr, some, ◌==◌, ◌<>◌, arith, [], ◌∷◌,
}
use schedualerl_lm.Base.Int.{ℤ}
use schedualerl_lm.Auth.Jwt.{Jwt, decode_token, encode_token, token_payload}
use schedualerl_lm.Auth.Middleware.{
  HttpRequest, is_public, bearer_token, subject, authenticate, checked,
}
use schedualerl_lm.Config.{AuthSettings}
use schedualerl_lm.Db.Models.{ScheduledTask}
use schedualerl_lm.Python.Datetime.{Datetime}
use schedualerl_lm.Python.Dict.{Dict, text, get}
use schedualerl_lm.Python.Platform.{Platform}
use schedualerl_lm.Python.Result.{ok}
use schedualerl_lm.Scheduler.Executor.{Executor, webhook_request}

module _ (jwt : Jwt) (show_number : ℤ → String) (settings : AuthSettings) where
  -- What a request showed: a bearer token that decodes, with the user as its subject.
  pub record Shows (request : HttpRequest) (user_id : String) : Type 0 where
    pub not_public : is_public request.path ≡ false
    pub token : String
    pub has_token : bearer_token request.authorization ≡ some token
    pub payload : Dict
    pub decodes : decode_token jwt token settings ≡ some payload
    pub has_subject : subject jwt show_number (get payload "sub") ≡ some user_id

  -- A handler of a protected route only runs for a user whom a bearer token of the request shows:
  -- the path is not public, the header carries a token that decodes with the configured secret and
  -- algorithm, and the user is its subject.
  pub authenticate-Shows :
      (request : HttpRequest) (user_id : String)
      → authenticate jwt show_number settings request ≡ ok user_id
      → Shows request user_id
  unfolding authenticate
  authenticate-Shows request user_id h = elim (Bool-cases (is_public request.path)) [
    | inl public ↦ absurd (let e = rw public at h in ground arith)
    | inr protected ↦ elim (Option-cases (bearer_token request.authorization)) [
      | inl missing ↦ absurd (ground arith)
      | inr (token, shown) ↦ elim (Option-cases (decode_token jwt token settings)) [
        | inl invalid ↦ absurd (ground arith)
        | inr (payload, decoded) ↦
            elim (Option-cases (subject jwt show_number (get payload "sub"))) [
              | inl anonymous ↦ absurd (ground arith)
              | inr (sub, found) ↦
                  let same : sub ≡ user_id = ground arith in
                  record {
                    not_public = protected;
                    token = token;
                    has_token = shown;
                    payload = payload;
                    decodes = decoded;
                    has_subject = ground arith;
                  }
            ]
      ]
    ]
  ]

bearer_token-Bearer : (token : String) → bearer_token (some ("Bearer " <> token)) ≡ some token
bearer_token-Bearer token =
    rw (starts_with-append "Bearer " token, len-append "Bearer " token)
      (ap some (slice-append_right "Bearer " token))

module _ (jwt : Jwt) (show_number : ℤ → String) (settings : AuthSettings) where
  -- On a path that is not public, a header of `Bearer ` and a token that decodes, with a subject
  -- that is not empty, authenticates that subject.
  pub authenticate-token :
      (request : HttpRequest) (token : String) (payload : Dict) (user_id : String)
      → is_public request.path ≡ false
      → request.authorization ≡ some ("Bearer " <> token)
      → decode_token jwt token settings ≡ some payload
      → subject jwt show_number (get payload "sub") ≡ some user_id
      → (user_id == "") ≡ false
      → authenticate jwt show_number settings request ≡ ok user_id
  unfolding authenticate
  authenticate-token request token payload user_id protected shown decoded found filled =
      rw (protected, shown, bearer_token-Bearer token, decoded) (rw (checked, found, filled))

  -- PyJWT decodes what it encoded with the same secret and algorithm, until the token expires: the
  -- claim `sub` comes back as it was.
  pub record Decodes (payload : Dict) : Type 0 where
    pub decoded : Dict
    pub decodes :
        jwt.decode
          (jwt.encode payload settings.jwt_secret settings.jwt_algorithm)
          settings.jwt_secret
          (settings.jwt_algorithm ∷ [])
        ≡ some decoded
    pub same_subject : get decoded "sub" ≡ get payload "sub"

module _ (p : Platform) (jwt : Jwt) (show_number : ℤ → String) (ex : Executor) where
  -- The payload of the token that goes out with a webhook.
  abbrev pub webhook_payload : Datetime → ScheduledTask → Dict
  webhook_payload now task =
      token_payload jwt now task.user_id ex.scheduler.webhook_jwt_ttl_minutes
        (("task_id", text (p.str_uuid task.id)) ∷ ("purpose", text "webhook") ∷ [])

  -- The authorization that goes out with a task's webhook, sent back on a path that is not public
  -- while its token decodes with the subject kept, authenticates the task's owner, if the owner's
  -- id is not empty.
  pub authenticate-webhook_request :
      (request : HttpRequest) (now : Datetime) (task : ScheduledTask)
      → is_public request.path ≡ false
      → request.authorization ≡ some (webhook_request p jwt ex now task).authorization
      → Decodes jwt show_number ex.auth (webhook_payload now task)
      → (task.user_id == "") ≡ false
      → authenticate jwt show_number ex.auth request ≡ ok task.user_id
  unfolding webhook_request encode_token decode_token
  authenticate-webhook_request request now task protected shown d filled =
      let token = jwt.encode (webhook_payload now task) ex.auth.jwt_secret ex.auth.jwt_algorithm in
      authenticate-token jwt show_number ex.auth request token d.decoded task.user_id protected
        shown d.decodes (rw d.same_subject (rw filled)) filled
