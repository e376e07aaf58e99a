-- ===== src/Scheduler.antt =====
-- app/scheduler: triggers, schedules and the webhook executor.
pub mod Triggers
pub mod Service
pub mod Executor
pub mod Execution
