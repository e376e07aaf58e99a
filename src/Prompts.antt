-- ===== src/Prompts.antt =====
-- app/prompts: the system prompt of the language model.
pub mod Loader
