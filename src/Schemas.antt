-- ===== src/Schemas.antt =====
-- app/schemas: the request, response and trigger models.
pub mod Tasks
pub mod Execution
pub mod History
pub mod TriggerParse
