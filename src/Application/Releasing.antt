-- ===== src/Application/Releasing.antt =====
-- What the application releases when it ends.
use schedualerl_lm.Base.{◌≡◌, Bool, true, false, ◌&&◌, List, [], ◌∷◌, any, arith}
use schedualerl_lm.Application.{
  Event, scheduler_entered, executor_set, scheduler_started, client_closed, scheduler_left,
  engine_disposed, Outside, lifespan,
}
use schedualerl_lm.Python.Result.{is_ok}

abbrev pub is_executor_set : Event → Bool
is_executor_set executor_set = true
is_executor_set _ = false

abbrev pub is_scheduler_started : Event → Bool
is_scheduler_started scheduler_started = true
is_scheduler_started _ = false

abbrev pub is_scheduler_entered : Event → Bool
is_scheduler_entered scheduler_entered = true
is_scheduler_entered _ = false

abbrev pub is_scheduler_left : Event → Bool
is_scheduler_left scheduler_left = true
is_scheduler_left _ = false

abbrev pub is_client_closed : Event → Bool
is_client_closed client_closed = true
is_client_closed _ = false

abbrev pub is_engine_disposed : Event → Bool
is_engine_disposed engine_disposed = true
is_engine_disposed _ = false

-- The scheduler is started only when the executor is set.
abbrev pub starts_ready : List Event → Bool
starts_ready [] = true
starts_ready (executor_set ∷ log) = true
starts_ready (scheduler_started ∷ log) = false
starts_ready (_ ∷ log) = starts_ready log

-- However the calls of its start and end go, the application starts the scheduler only when the
-- executor is set, leaves the scheduler if it has entered it, unless leaving raises, closes the
-- HTTP client exactly if the scheduler was started and closing does not raise, and disposes of the
-- engine exactly if its lifespan ends without an exception.
pub lifespan-releases :
    (o : Outside)
    → (starts_ready (lifespan o []).1 ≡ true)
      × (any is_scheduler_left (lifespan o []).1
          ≡ (any is_scheduler_entered (lifespan o []).1 && is_ok o.leave_scheduler))
      × (any is_client_closed (lifespan o []).1
          ≡ (any is_scheduler_started (lifespan o []).1 && is_ok o.close_client))
      × (any is_engine_disposed (lifespan o []).1 ≡ is_ok (lifespan o []).0)
unfolding lifespan
lifespan-releases o = (ground arith, ground arith, ground arith, ground arith)
