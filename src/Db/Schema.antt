-- ===== src/Db/Schema.antt =====
-- The database schema that the migrations of alembic/versions build, with what they say in SQL: the
-- conditions of constraints and policies, and a catalog that the statements change.
pub mod Expression
pub mod Catalog
pub mod Revisions
pub mod Rows
pub mod EventShape
pub mod Frame
pub mod Head
pub mod Reversal
pub mod Policies
