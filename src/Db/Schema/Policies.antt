-- ===== src/Db/Schema/Policies.antt =====
-- PostgreSQL's row level security over a catalog: which rows a command may work on.
pub mod AtHead
use schedualerl_lm.Base.{
  String, Bool, true, false, ◌&&◌, ◌||◌, not, Option, none, some, ◌==◌, find, any,
}
use schedualerl_lm.Db.Schema.Catalog.{
  Table, Command, for_all, for_select, for_insert, for_update, for_delete, Policy, Function,
  Trigger, Catalog,
}
use schedualerl_lm.Db.Schema.Expression.{Condition, Settings, Row, eval, is_true}

-- A policy `FOR ALL` is for every command.
abbrev pub is_for : Command → Command → Bool
is_for _ for_all = true
is_for for_select for_select = true
is_for for_insert for_insert = true
is_for for_update for_update = true
is_for for_delete for_delete = true
is_for _ _ = false

abbrev or_else : Option Condition → Option Condition → Option Condition
or_else none d = d
or_else (some c) d = some c

-- A new row meets `WITH CHECK`, which is `USING` where it is left out; a row that is there meets
-- `USING`.
abbrev pub condition_for : Command → Policy → Option Condition
condition_for for_insert p = or_else p.with_check p.using_condition
condition_for _ p = p.using_condition

abbrev passes : Settings → Row → Option Condition → Bool
passes settings row none = true
passes settings row (some c) = is_true (eval settings row c)

abbrev pub lets_through : Command → String → Settings → Row → Policy → Bool
lets_through command table settings row p =
    p.table == table && (is_for command p.command && passes settings row (condition_for command p))

-- Some policy lets the row through, unless row level security is off, for the role or at all. The
-- role is no superuser and has no BYPASSRLS.
abbrev pub guarded : Bool → Bool → Option Table → Bool
guarded is_owner let_through none = false
guarded is_owner let_through (some t) =
    not t.rls_enabled || (is_owner && not t.rls_forced) || let_through

unfoldable pub admits : Catalog → Command → Bool → String → Settings → Row → Bool
unfolding eval
admits c command is_owner table settings row =
    guarded is_owner (any (lets_through command table settings row) c.policies)
      (find (λ (t : Table). t.name == table) c.tables)

abbrev exception_of : Option Function → Option String
exception_of none = none
exception_of (some f) = some f.exception

abbrev raised_by : Catalog → Option Trigger → Option String
raised_by c none = none
raised_by c (some t) = exception_of (find (λ (f : Function). f.name == t.function) c.functions)

-- What an UPDATE or DELETE of a row of the table raises, for whichever role.
unfoldable pub raised_on_change : Catalog → String → Option String
raised_on_change c table = raised_by c (find (λ (t : Trigger). t.table == table) c.triggers)
