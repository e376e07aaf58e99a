-- ===== src/Db/Session/Keeps.antt =====
-- Properties of a session that an action leaves true, by the way the action is built.
use schedualerl_lm.Base.{Bool, true, false, if◌then◌else◌}
use schedualerl_lm.Python.Result.{Exn, Result, ok, err}
use schedualerl_lm.Db.Session.{
  Tables, close_session, commit, rollback, Session, Action, continue, pure, raise, lift, gets,
  ◌>>=◌,
}

-- Whenever `P` holds of a session, it holds of the one that the action leaves: after a raise too.
pub record Keeps {A : Type 0} (P : Session → Type 0) (action : Action A) : Type 0 where
  pub holds_after : (s : Session) → P s → P (action s).1

module _ {P : Session → Type 0} where
  pub Keeps-raise : {A : Type 0} (e : Exn) → Keeps P (raise {A = A} e)
  unfolding raise
  Keeps-raise e = record { holds_after = λ s before. before }

  after_result :
      {A B : Type 0} (r : Result A) (next : A → Action B)
      → ((x : A) → Keeps P (next x))
      → (s : Session) → P s
      → P (continue r next s).1
  after_result (err e) next kept s before = before
  after_result (ok x) next kept s before = (kept x).holds_after s before

  pub Keeps-bind :
      {A B : Type 0} (first : Action A) (next : A → Action B)
      → Keeps P first
      → ((x : A) → Keeps P (next x))
      → Keeps P (first >>= next)
  unfolding ◌>>=◌
  Keeps-bind first next k kept = record {
    holds_after =
        λ s before. after_result (first s).0 next kept (first s).1 (k.holds_after s before);
  }

  module _ {A : Type 0} where
    pub Keeps-gets : (read : Session → A) → Keeps P (gets read)
    unfolding gets
    Keeps-gets read = record { holds_after = λ s before. before }

    pub Keeps-pure : (x : A) → Keeps P (pure x)
    unfolding pure
    Keeps-pure x = record { holds_after = λ s before. before }

    pub Keeps-lift : (r : Result A) → Keeps P (lift r)
    unfolding lift
    Keeps-lift r = record { holds_after = λ s before. before }

    pub Keeps-if :
        (test : Bool) (m n : Action A) → Keeps P m → Keeps P n → Keeps P (if test then m else n)
    Keeps-if false m n k_yes k_no = k_no
    Keeps-if true m n k_yes k_no = k_yes

-- What holds of the session's tables and of the committed ones holds of those that the request
-- leaves committed.
pub close_session_committed :
    {A : Type 0} (Q : Tables → Type 0) (x : Result A × Session)
    → Q x.1.working
    → Q x.1.committed
    → Q (close_session x).1.committed
unfolding commit rollback
close_session_committed Q (ok a, s) w c = w
close_session_committed Q (err e, s) w c = c

pub ruleset keeps_rules = (Keeps-bind, Keeps-pure, Keeps-lift, Keeps-if, Keeps-gets, Keeps-raise)
