-- ===== src/Parsing.antt =====
-- app/parsing
pub mod RelativeSchedule
