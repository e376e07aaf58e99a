-- ===== src/Db.antt =====
-- app/db: the models, the row level security, and the sessions.
pub mod Models
pub mod Migrations
pub mod Session
pub mod Engine
pub mod Schema
pub mod Runner
