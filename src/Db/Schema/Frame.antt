-- ===== src/Db/Schema/Frame.antt =====
-- A statement about names that a catalog does not use does the same as on the catalog without it.
use schedualerl_lm.Base.{
  String, Bool, true, false, ◌||◌, not, List, [], ◌∷◌, ◌++◌, ◌==◌, filter, map, any, if◌then◌else◌,
  ◌≡◌, refl, arith, inl, inr,
}
use mathlib.Core.List.{append_assoc}
use schedualerl_lm.Db.Schema.Catalog.{
  Index, Policy, Trigger, Catalog, Statement, create_table, create_index, enable_row_level_security,
  force_row_level_security, create_policy, create_or_replace_function, create_trigger,
  drop_trigger_if_exists, drop_function_if_exists, drop_policy_if_exists, drop_index, drop_table,
  has_table, has_index, is_policy, is_trigger, has_function, is_executed, apply, run,
}
use schedualerl_lm.Python.Result.{Result, Result-cases, ok, ◌>>=◌}

-- The catalog has a relation of this name, or something on one.
abbrev pub knows : Catalog → String → Bool
knows c name =
    has_table c name
    || has_index c name
    || any (λ (i : Index). i.table == name) c.indexes
    || any (λ (p : Policy). p.table == name) c.policies
    || any (λ (t : Trigger). t.table == name) c.triggers

abbrev pub knows_function : Catalog → String → Bool
knows_function c name = has_function c name || is_executed c name

-- Both catalogs together.
abbrev pub extend : Catalog → Catalog → Catalog
extend c e = record {
  tables = c.tables ++ e.tables;
  indexes = c.indexes ++ e.indexes;
  policies = c.policies ++ e.policies;
  functions = c.functions ++ e.functions;
  triggers = c.triggers ++ e.triggers;
}

-- The catalog knows a name that the statement uses.
abbrev pub touches : Catalog → Statement → Bool
touches c (create_table t) = knows c t.name
touches c (create_index i) = knows c i.name || knows c i.table
touches c (enable_row_level_security name) = knows c name
touches c (force_row_level_security name) = knows c name
touches c (create_policy p) = knows c p.table
touches c (create_or_replace_function f) = knows_function c f.name
touches c (create_trigger t) = knows c t.table || knows_function c t.function
touches c (drop_trigger_if_exists name table) = knows c table
touches c (drop_function_if_exists name) = knows_function c name
touches c (drop_policy_if_exists name table) = knows c table
touches c (drop_index name) = knows c name
touches c (drop_table name) = knows c name

module _ {ℓ} {A : Type ℓ} where
  pub any-append : (p : A → Bool) (xs ys : List A) → any p xs ≡ false → any p (xs ++ ys) ≡ any p ys
  any-append p [] ys h = refl
  any-append p (x ∷ xs) ys h = ground (arith, any-append p xs ys)

  pub any_weaken :
      (p q : A → Bool)
      → ((x : A) → q x ≡ true → p x ≡ true)
      → (xs : List A) → any p xs ≡ false
      → any q xs ≡ false
  any_weaken p q h [] e = refl
  any_weaken p q h (x ∷ xs) e = ground (arith, h x, any_weaken p q h xs)

  filter-append :
      (p : A → Bool) (xs ys : List A)
      → any p xs ≡ false
      → filter (λ x. not (p x)) (xs ++ ys) ≡ xs ++ filter (λ x. not (p x)) ys
  filter-append p [] ys h = refl
  filter-append p (x ∷ xs) ys h = ground (arith, filter-append p xs ys)

  map-append :
      (p : A → Bool) (f : A → A) (xs ys : List A)
      → any p xs ≡ false
      → map (λ x. if p x then f x else x) (xs ++ ys) ≡ xs ++ map (λ x. if p x then f x else x) ys
  map-append p f [] ys h = refl
  map-append p f (x ∷ xs) ys h = ground (arith, map-append p f xs ys)

abbrev pub map_result : {A B : Type 0} → (A → B) → Result A → Result B
map_result f r = r >>= λ a. ok (f a)

pub record IsUnknown (c : Catalog) (name : String) : Type 0 where
  pub no_table : has_table c name ≡ false
  pub no_index : has_index c name ≡ false
  pub indexless : any (λ (i : Index). i.table == name) c.indexes ≡ false
  pub policyless : any (λ (p : Policy). p.table == name) c.policies ≡ false
  pub triggerless : any (λ (t : Trigger). t.table == name) c.triggers ≡ false

pub unknown : (c : Catalog) (name : String) → knows c name ≡ false → IsUnknown c name
unknown c name h = record {
  no_table = ground arith;
  no_index = ground arith;
  indexless = ground arith;
  policyless = ground arith;
  triggerless = ground arith;
}

apply-extend :
    (c e : Catalog) (o : Statement)
    → touches c o ≡ false
    → apply o (extend c e) ≡ map_result (extend c) (apply o e)
unfolding apply
apply-extend c e (create_table t) h =
    let k = unknown c t.name h in
    simp (any-append, k.no_table, k.no_index, append_assoc) (ground arith)
apply-extend c e (create_index i) h =
    let k = unknown c i.name (ground arith) in
    let l = unknown c i.table (ground arith) in
    simp (any-append, k.no_table, k.no_index, l.no_table, append_assoc) (ground arith)
apply-extend c e (enable_row_level_security name) h =
    let k = unknown c name h in simp (any-append, map-append, k.no_table) (ground arith)
apply-extend c e (force_row_level_security name) h =
    let k = unknown c name h in simp (any-append, map-append, k.no_table) (ground arith)
apply-extend c e (create_policy p) h =
    let k = unknown c p.table h in
    let other : any (is_policy p.name p.table) c.policies ≡ false =
      any_weaken (λ (q : Policy). q.table == p.table) (is_policy p.name p.table)
        (λ q m. ground arith) c.policies k.policyless in
    simp (any-append, other, k.no_table, append_assoc) (ground arith)
apply-extend c e (create_or_replace_function f) h =
    let k : has_function c f.name ≡ false = ground arith in simp (filter-append, k, append_assoc)
apply-extend c e (create_trigger t) h =
    let k = unknown c t.table (ground arith) in
    let l : has_function c t.function ≡ false = ground arith in
    let other : any (is_trigger t.name t.table) c.triggers ≡ false =
      any_weaken (λ (q : Trigger). q.table == t.table) (is_trigger t.name t.table)
        (λ q m. ground arith) c.triggers k.triggerless in
    simp (any-append, other, l, k.no_table, append_assoc) (ground arith)
apply-extend c e (drop_trigger_if_exists name table) h =
    let other : any (is_trigger name table) c.triggers ≡ false =
      any_weaken (λ (q : Trigger). q.table == table) (is_trigger name table) (λ q m. ground arith)
        c.triggers (IsUnknown.triggerless (unknown c table h)) in
    simp (filter-append, other)
apply-extend c e (drop_function_if_exists name) h =
    let k : has_function c name ≡ false = ground arith in
    let l : is_executed c name ≡ false = ground arith in
    simp (any-append, filter-append, k, l) (ground arith)
apply-extend c e (drop_policy_if_exists name table) h =
    let other : any (is_policy name table) c.policies ≡ false =
      any_weaken (λ (q : Policy). q.table == table) (is_policy name table) (λ q m. ground arith)
        c.policies (IsUnknown.policyless (unknown c table h)) in
    simp (filter-append, other)
apply-extend c e (drop_index name) h =
    let k = unknown c name h in simp (any-append, filter-append, k.no_index) (ground arith)
apply-extend c e (drop_table name) h =
    let k = unknown c name h in
    simp (any-append, filter-append, k.no_table, k.indexless, k.policyless, k.triggerless)
      (ground arith)

-- The same of a migration.
pub run-extend :
    (c : Catalog) (os : List Statement)
    → any (touches c) os ≡ false
    → (e : Catalog) → run os (extend c e) ≡ map_result (extend c) (run os e)
unfolding run
run-extend c [] h e = refl
run-extend c (o ∷ os) h e =
    let here : touches c o ≡ false = ground arith in
    let later : any (touches c) os ≡ false = ground arith in
    elim (Result-cases (apply o e)) [
      | inl (x, failed) ↦ rw (apply-extend c e o here, failed) refl
      | inr (d, changed) ↦ rw (apply-extend c e o here, changed) (run-extend c os later d)
    ]
