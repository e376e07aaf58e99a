-- ===== src/Routes/Api/Callers.antt =====
-- Whose rows a request may change: those of the user that its token shows.
use schedualerl_lm.Base.{◌≡◌, refl, String, Bool, List, Option, some, none, inl, inr, ◌⊎◌}
use schedualerl_lm.Auth.Middleware.{HttpRequest, authenticate}
use schedualerl_lm.Auth.Middleware.Tokens.{Shows, authenticate-Shows}
use schedualerl_lm.Db.Models.{TaskHistory}
use schedualerl_lm.Db.Session.{Tables, Session, open_session, get_db}
use schedualerl_lm.Db.Session.Isolation.{Confined, SameForeign, confined_rules}
use schedualerl_lm.Db.Session.Keeps.{Keeps, close_session_committed, keeps_rules}
use schedualerl_lm.Python.Platform.{Platform, Uuid}
use schedualerl_lm.Python.Result.{Result, ok, err, Result-cases}
use schedualerl_lm.Routes.Api.{
  Service, ApiRequest, ApiReply, me, on_tasks, on_history, on_task_history, on_triggers, handle,
  answer,
}
use schedualerl_lm.Routes.History.{list_matching}
use schedualerl_lm.Routes.Requests.{Inputs}
use schedualerl_lm.Routes.Requests.Isolation.{serve-SameForeign, open-Confined}
use schedualerl_lm.Schemas.History.{HistoryListQuery}

unchanged-SameForeign : (u : String) (t : Tables) → SameForeign u t t
unchanged-SameForeign u t = record { same_tasks = refl; same_history = refl }

list_matching-SameForeign :
    (p : Platform) (sort_history : Bool → List TaskHistory → List TaskHistory) (u : String)
    (t : Tables) (query : HistoryListQuery) (task_id : Option Uuid)
    → SameForeign u t (get_db (some u) t (list_matching p sort_history query task_id)).1.committed
unfolding get_db list_matching
list_matching-SameForeign p sort_history u t query task_id =
    let kept : Keeps (Confined u t) (list_matching p sort_history query task_id) =
      search (keeps_rules, confined_rules) depth 20 in
    let s = open_session (some u) t in
    let h = kept.holds_after s (open-Confined u t) in
    close_session_committed (SameForeign u t) (list_matching p sort_history query task_id s)
      h.working_foreign h.committed_foreign

module _ (service : Service) (inputs : Inputs) where
  open service use {app, parser, sort_history, show_number}

  handle-SameForeign :
      (u : String) (t : Tables) (request : ApiRequest)
      → SameForeign u t (handle service inputs u t request).1.committed
  unfolding handle
  handle-SameForeign u t me = unchanged-SameForeign u t
  handle-SameForeign u t (on_tasks request) = serve-SameForeign app inputs u t request
  handle-SameForeign u t (on_history query) =
      list_matching-SameForeign app.platform sort_history u t query none
  handle-SameForeign u t (on_task_history task_id query) =
      list_matching-SameForeign app.platform sort_history u t query (some task_id)
  handle-SameForeign u t (on_triggers body) = unchanged-SameForeign u t

  -- A request that shows no user fails and changes nothing.
  abbrev pub IsRefused : Tables → Result ApiReply × Session → Type 0
  IsRefused t (ok reply, s) = ⊥
  IsRefused t (err e, s) = s.committed ≡ t

  -- Any request to the routes under /api/v1 either fails with nothing changed, or carries a bearer
  -- token that shows a user, and then leaves exactly the tasks and the history rows of every other
  -- user that were there before.
  pub answer_lem :
      (http : HttpRequest) (t : Tables) (request : ApiRequest)
      → IsRefused t (answer service inputs http t request)
        ⊎ ((u : String) × Shows app.jwt show_number app.executor.auth http u
            × SameForeign u t (answer service inputs http t request).1.committed)
  unfolding answer
  answer_lem http t request =
      elim (Result-cases (authenticate app.jwt show_number app.executor.auth http)) [
        | inl (e, refused) ↦ inl (rw (answer, refused) refl)
        | inr (u, shown) ↦ inr (
          u,
          authenticate-Shows app.jwt show_number app.executor.auth http u shown,
          rw (answer, shown) (handle-SameForeign u t request),
        )
      ]
