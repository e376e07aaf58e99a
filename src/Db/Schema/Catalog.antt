-- ===== src/Db/Schema/Catalog.antt =====
-- The catalog of a database, and the statements of the migrations. A statement fails, as PostgreSQL
-- does, for a name that is taken or missing. The indexes behind the primary keys are left out.
use schedualerl_lm.Base.{
  ℕ, String, Bool, true, ◌&&◌, ◌||◌, not, Option, List, [], ◌∷◌, ◌++◌, ◌==◌, filter, map, any,
  if◌then◌else◌,
}
use schedualerl_lm.Db.Schema.Expression.{Condition}
use schedualerl_lm.Python.Result.{Result, ok, err, other, ◌>>=◌}

-- The types of SQLAlchemy that the tables use.
pub data ColumnType : Type 0 where
  uuid_column : ColumnType
  string_column : (length : Option ℕ) → ColumnType
  text_column : ColumnType
  jsonb_column : ColumnType
  timezone_column : ColumnType
  boolean_column : ColumnType
  integer_column : ColumnType

pub record Column : Type 0 where
  pub name : String
  pub column_type : ColumnType
  pub server_default : Option String
  pub nullable : Bool

pub record Check : Type 0 where
  pub name : String
  pub condition : Condition

pub record Table : Type 0 where
  pub name : String
  pub columns : List Column
  pub primary_key : String
  pub checks : List Check
  pub rls_enabled : Bool
  pub rls_forced : Bool

-- The columns of an index, `DESC` included, as their texts.
pub record Index : Type 0 where
  pub name : String
  pub table : String
  pub columns : List String

pub data Command : Type 0 where
  for_all : Command
  for_select : Command
  for_insert : Command
  for_update : Command
  for_delete : Command

pub record Policy : Type 0 where
  pub name : String
  pub table : String
  pub command : Command
  pub using_condition : Option Condition
  pub with_check : Option Condition

-- A function whose body raises an exception.
pub record Function : Type 0 where
  pub name : String
  pub exception : String

-- `BEFORE UPDATE OR DELETE ON table FOR EACH ROW EXECUTE FUNCTION function()`
pub record Trigger : Type 0 where
  pub name : String
  pub table : String
  pub function : String

pub record Catalog : Type 0 where
  pub tables : List Table
  pub indexes : List Index
  pub policies : List Policy
  pub functions : List Function
  pub triggers : List Trigger

pub data Statement : Type 0 where
  create_table : Table → Statement
  create_index : Index → Statement
  enable_row_level_security : (table : String) → Statement
  force_row_level_security : (table : String) → Statement
  create_policy : Policy → Statement
  create_or_replace_function : Function → Statement
  create_trigger : Trigger → Statement
  drop_trigger_if_exists : (name table : String) → Statement
  drop_function_if_exists : (name : String) → Statement
  drop_policy_if_exists : (name table : String) → Statement
  drop_index : (name : String) → Statement
  drop_table : (name : String) → Statement

abbrev pub has_table : Catalog → String → Bool
has_table c name = any (λ (t : Table). t.name == name) c.tables

abbrev pub has_index : Catalog → String → Bool
has_index c name = any (λ (i : Index). i.name == name) c.indexes

-- Tables and indexes share their names.
abbrev pub has_relation : Catalog → String → Bool
has_relation c name = has_table c name || has_index c name

abbrev pub is_policy : String → String → Policy → Bool
is_policy name table p = p.name == name && p.table == table

abbrev pub is_trigger : String → String → Trigger → Bool
is_trigger name table t = t.name == name && t.table == table

abbrev pub has_function : Catalog → String → Bool
has_function c name = any (λ (f : Function). f.name == name) c.functions

abbrev pub is_executed : Catalog → String → Bool
is_executed c name = any (λ (t : Trigger). t.function == name) c.triggers

abbrev pub enable : String → Table → Table
enable name t = if t.name == name then record t { rls_enabled = true } else t

abbrev pub force : String → Table → Table
force name t = if t.name == name then record t { rls_forced = true } else t

-- `DROP TABLE` takes the indexes, policies and triggers of the table with it.
abbrev pub without_table : String → Catalog → Catalog
without_table name c = record c {
  tables = filter (λ (t : Table). not (t.name == name)) c.tables;
  indexes = filter (λ (i : Index). not (i.table == name)) c.indexes;
  policies = filter (λ (p : Policy). not (p.table == name)) c.policies;
  triggers = filter (λ (t : Trigger). not (t.table == name)) c.triggers;
}

abbrev pub missing : {A : Type 0} → Result A
missing = err (other "does not exist")

abbrev pub taken : {A : Type 0} → Result A
taken = err (other "already exists")

unfoldable pub apply : Statement → Catalog → Result Catalog
apply (create_table t) c =
    if has_relation c t.name then taken else ok (record c { tables = c.tables ++ t ∷ [] })
apply (create_index i) c =
    if not (has_table c i.table)
    then missing
    else if has_relation c i.name
    then taken
    else ok (record c { indexes = c.indexes ++ i ∷ [] })
apply (enable_row_level_security name) c =
    if has_table c name then ok (record c { tables = map (enable name) c.tables }) else missing
apply (force_row_level_security name) c =
    if has_table c name then ok (record c { tables = map (force name) c.tables }) else missing
apply (create_policy p) c =
    if not (has_table c p.table)
    then missing
    else if any (is_policy p.name p.table) c.policies
    then taken
    else ok (record c { policies = c.policies ++ p ∷ [] })
apply (create_or_replace_function f) c = ok (record c {
  functions = filter (λ (g : Function). not (g.name == f.name)) c.functions ++ f ∷ [];
})
apply (create_trigger t) c =
    if not (has_table c t.table) || not (has_function c t.function)
    then missing
    else if any (is_trigger t.name t.table) c.triggers
    then taken
    else ok (record c { triggers = c.triggers ++ t ∷ [] })
apply (drop_trigger_if_exists name table) c =
    ok (record c { triggers = filter (λ t. not (is_trigger name table t)) c.triggers })
apply (drop_function_if_exists name) c =
    if is_executed c name
    then err (other "other objects depend on it")
    else ok (record c { functions = filter (λ (f : Function). not (f.name == name)) c.functions })
apply (drop_policy_if_exists name table) c =
    ok (record c { policies = filter (λ p. not (is_policy name table p)) c.policies })
apply (drop_index name) c =
    if has_index c name
    then ok (record c { indexes = filter (λ (i : Index). not (i.name == name)) c.indexes })
    else missing
apply (drop_table name) c = if has_table c name then ok (without_table name c) else missing

-- The statements of a migration, one after another.
unfoldable pub run : List Statement → Catalog → Result Catalog
run [] c = ok c
run (o ∷ os) c = apply o c >>= run os

abbrev pub no_objects : Catalog
no_objects = record { tables = []; indexes = []; policies = []; functions = []; triggers = [] }
