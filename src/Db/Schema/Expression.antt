-- ===== src/Db/Schema/Expression.antt =====
-- The SQL conditions of the migrations, in the three-valued logic of SQL.
use schedualerl_lm.Base.{
  String, Bool, true, false, ◌&&◌, ◌||◌, not, Option, none, some, List, ◌==◌, is_some,
  if◌then◌else◌, any,
}
use schedualerl_lm.Base.Int.{ℤ}
use schedualerl_lm.Python.Datetime.{Datetime}
use schedualerl_lm.Python.Dict.{Dict}
use schedualerl_lm.Python.Platform.{Uuid}

-- What a column holds, unless it is NULL.
pub data Cell : Type 0 where
  varchar : String → Cell
  boolean : Bool → Cell
  integer : ℤ → Cell
  timestamp : Datetime → Cell
  uuid : Uuid → Cell
  jsonb : Dict → Cell

-- The columns of a row by their names. A name that the table does not have is NULL here, and an
-- error in SQL.
abbrev pub Row : Type 0
Row = String → Option Cell

-- The configuration parameters of the transaction: `current_setting(name, true)`.
abbrev pub Settings : Type 0
Settings = String → Option String

infixr 4 ◌and◌
infixr 3 ◌or◌
pub data Condition : Type 0 where
  is_null : (column : String) → Condition
  is_not_null : (column : String) → Condition
  -- `column = 'value'`, `column IN ('value', …)` and `column = false`
  equals : (column value : String) → Condition
  is_in : (column : String) → List String → Condition
  equals_false : (column : String) → Condition
  -- `column = current_setting(name, true)` and `current_setting(name, true) = 'value'`
  equals_setting : (column setting : String) → Condition
  setting_equals : (setting value : String) → Condition
  ◌and◌ : Condition → Condition → Condition
  ◌or◌ : Condition → Condition → Condition

-- `=` on texts that may be NULL. A cell of another type is no text, which SQL refuses.
abbrev pub equal_texts : Option String → Option String → Option Bool
equal_texts (some s) (some t) = some (s == t)
equal_texts _ _ = none

abbrev pub text_of_cell : Option Cell → Option String
text_of_cell (some (varchar s)) = some s
text_of_cell _ = none

abbrev pub in_texts : Option String → List String → Option Bool
in_texts (some s) values = some (any (λ v. s == v) values)
in_texts none values = none

abbrev pub false_of_cell : Option Cell → Option Bool
false_of_cell (some (boolean b)) = some (not b)
false_of_cell _ = none

-- `AND` and `OR`, where NULL is unknown.
abbrev pub sql_and : Option Bool → Option Bool → Option Bool
sql_and (some a) (some b) = some (a && b)
sql_and (some a) none = if a then none else some false
sql_and none (some b) = if b then none else some false
sql_and none none = none

abbrev pub sql_or : Option Bool → Option Bool → Option Bool
sql_or (some a) (some b) = some (a || b)
sql_or (some a) none = if a then some true else none
sql_or none (some b) = if b then some true else none
sql_or none none = none

unfoldable pub eval : Settings → Row → Condition → Option Bool
eval settings row (is_null column) = some (not (is_some (row column)))
eval settings row (is_not_null column) = some (is_some (row column))
eval settings row (equals column value) = equal_texts (text_of_cell (row column)) (some value)
eval settings row (is_in column values) = in_texts (text_of_cell (row column)) values
eval settings row (equals_false column) = false_of_cell (row column)
eval settings row (equals_setting column setting) =
    equal_texts (text_of_cell (row column)) (settings setting)
eval settings row (setting_equals setting value) = equal_texts (settings setting) (some value)
eval settings row (c and d) = sql_and (eval settings row c) (eval settings row d)
eval settings row (c or d) = sql_or (eval settings row c) (eval settings row d)

-- A CHECK constraint refuses a row for which it is false; a policy lets a row through for which it is
-- true.
abbrev pub is_not_false : Option Bool → Bool
is_not_false none = true
is_not_false (some b) = b

abbrev pub is_true : Option Bool → Bool
is_true none = false
is_true (some b) = b
