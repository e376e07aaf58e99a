-- ===== src/Routes.antt =====
-- app/routes
pub mod Tasks
pub mod Requests
pub mod History
pub mod TriggerParse
pub mod Api
pub mod Health
