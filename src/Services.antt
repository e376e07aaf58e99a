-- ===== src/Services.antt =====
-- app/services
pub mod TaskHistory
pub mod TriggerParse
pub mod TextParsing
