-- ===== src/Prompts/Loader/Rendering/Filled.antt =====
-- The values of all placeholders, filled in one after the other.
use mathlib.Core.Path.{subst, fun_ext}
use Prim.Native.Char.{code}
use schedualerl_lm.Base.{
  eq_iff, ◌≡◌, refl, sym, ap, ◌∙◌, String, Bool, true, false, ◌||◌, ◌==◌, List, [], ◌∷◌, All, eqb,
  if◌then◌else◌, Bool-cases, inl, inr, arith,
}
use schedualerl_lm.Prompts.Loader.{replace_all}
use schedualerl_lm.Prompts.Loader.Rendering.{
  Piece, plain, bracketed, slot, has_no_bracket, text_of, is_key, all_apart, is_ready, settled,
  IsPiece, replace-text_of,
}
use schedualerl_lm.Python.Strings.{append, contains}

-- A placeholder, and a value that opens none.
abbrev pub IsEntry : String × String → Type 0
IsEntry (key, v) = (is_key key ≡ true) × (has_no_bracket v ≡ true)

ready-step :
    (key v : String) (ps : List (String × String)) (t : String)
    → has_no_bracket v ≡ true
    → is_ready ((key, v) ∷ ps) t ≡ true
    → is_ready ps (if t == key then v else t) ≡ true
ready-step key v ps t free h = elim (Bool-cases (t == key)) [
  | inl same ↦ rw (same, free) refl
  | inr other ↦ rw other (ground arith)
]

pieces-step :
    (key v : String) (ps : List (String × String)) (value : String → String) (pieces : List Piece)
    → has_no_bracket v ≡ true
    → All (IsPiece ((key, v) ∷ ps) value) pieces
    → All (IsPiece ps (λ name. if value name == key then v else value name)) pieces
pieces-step key v ps value [] free h = tt
pieces-step key v ps value (plain c ∷ pieces) free h =
    (h.0, pieces-step key v ps value pieces free h.1)
pieces-step key v ps value (bracketed c ∷ pieces) free h =
    (h.0, pieces-step key v ps value pieces free h.1)
pieces-step key v ps value (slot name ∷ pieces) free h =
    (ready-step key v ps (value name) free h.0, pieces-step key v ps value pieces free h.1)

replace_all-text_of :
    (ps : List (String × String)) (value : String → String) (pieces : List Piece)
    → All IsEntry ps
    → All (IsPiece ps value) pieces
    → replace_all ps (text_of value pieces) ≡ text_of (λ name. settled ps (value name)) pieces
unfolding replace_all
replace_all-text_of [] value pieces e h = refl
replace_all-text_of ((key, v) ∷ ps) value pieces e h =
    rw (replace-text_of key v ps value pieces e.0.0 h) (
      replace_all-text_of ps (λ name. if value name == key then v else value name) pieces e.1
        (pieces-step key v ps value pieces e.0.1 h))

-- The value of a placeholder.
abbrev pub value_of : List (String × String) → String → String
value_of [] t = t
value_of ((key, v) ∷ rest) t = if t == key then v else value_of rest t

abbrev pub is_named : List (String × String) → String → Bool
is_named [] t = false
is_named ((key, v) ∷ rest) t = t == key || is_named rest t

-- A placeholder is a text with a bracket.
no_key : (t : String) → has_no_bracket t ≡ true → is_key t ≡ true → ⊥
no_key (String.◌∷◌ c (String.◌∷◌ d s)) free k = ground arith
no_key (String.◌∷◌ c String.[]) free k = cc
no_key String.[] free k = cc

key-has_bracket :
    (key v : String) → is_key key ≡ true → has_no_bracket v ≡ true → (v == key) ≡ false
key-has_bracket key v k free = elim (Bool-cases (v == key)) [
  | inl same ↦ absurd (no_key v free (subst (λ t. is_key t ≡ true) (sym ((eq_iff v key).0 same)) k))
  | inr other ↦ other
]

settled-free :
    (ps : List (String × String)) (t : String)
    → All IsEntry ps
    → has_no_bracket t ≡ true
    → settled ps t ≡ t
settled-free [] t e free = refl
settled-free ((key, v) ∷ ps) t e free =
    rw (key-has_bracket key t e.0.0 free) (settled-free ps t e.1 free)

settled-value_of :
    (ps : List (String × String)) (t : String) → All IsEntry ps → settled ps t ≡ value_of ps t
settled-value_of [] t e = refl
settled-value_of ((key, v) ∷ ps) t e = elim (Bool-cases (t == key)) [
  | inl same ↦ rw same (settled-free ps v e.1 e.0.1)
  | inr other ↦ rw other (settled-value_of ps t e.1)
]

value_of-free :
    (ps : List (String × String)) (t : String)
    → All IsEntry ps
    → is_named ps t ≡ true
    → has_no_bracket (value_of ps t) ≡ true
value_of-free [] t e h = cc
value_of-free ((key, v) ∷ ps) t e h = elim (Bool-cases (t == key)) [
  | inl same ↦ rw same e.0.1
  | inr other ↦ rw other (value_of-free ps t e.1 (rw other at h))
]

-- The check for placeholders that are left over finds none.
contains-free :
    (s rest : String)
    → has_no_bracket s ≡ true
    → contains "[INJECT_" (append s rest) ≡ contains "[INJECT_" rest
contains-free String.[] rest free = refl
contains-free (String.◌∷◌ c s) rest free =
    let other : eqb (code c) b'[' ≡ false = ground arith in
    rw other (contains-free s rest (ground arith))

-- The pieces of a template whose placeholders are those of a list.
abbrev pub IsTemplate : List (String × String) → Piece → Type 0
IsTemplate ps (plain c) = eqb (code c) b'[' ≡ false
IsTemplate ps (bracketed c) = (eqb (code c) b'[' ≡ false) × (eqb (code c) b'I' ≡ false)
IsTemplate ps (slot name) = is_named ps name ≡ true

pub contains-text_of :
    (ps : List (String × String)) (pieces : List Piece)
    → All IsEntry ps
    → All (IsTemplate ps) pieces
    → contains "[INJECT_" (text_of (value_of ps) pieces) ≡ false
contains-text_of ps [] e h = refl
contains-text_of ps (plain c ∷ pieces) e h = rw h.0 (contains-text_of ps pieces e h.1)
contains-text_of ps (bracketed c ∷ pieces) e h =
    rw (h.0.0, h.0.1) (contains-text_of ps pieces e h.1)
contains-text_of ps (slot name ∷ pieces) e h =
    contains-free (value_of ps name) (text_of (value_of ps) pieces) (value_of-free ps name e h.0)
    ∙ contains-text_of ps pieces e h.1

-- The names of a list stand apart.
abbrev pub AreApart : List (String × String) → List (String × String) → Type 0
AreApart ps [] = Unit
AreApart ps ((key, v) ∷ rest) = (all_apart ps key ≡ true) × AreApart ps rest

named-all_apart :
    (ps entries : List (String × String)) (t : String)
    → AreApart ps entries
    → is_named entries t ≡ true
    → all_apart ps t ≡ true
named-all_apart ps [] t apart h = cc
named-all_apart ps ((key, v) ∷ rest) t apart h = elim (Bool-cases (t == key)) [
  | inl same ↦ subst (λ k. all_apart ps k ≡ true) (sym ((eq_iff t key).0 same)) apart.0
  | inr other ↦ named-all_apart ps rest t apart.1 (rw other at h)
]

named-is_key :
    (ps : List (String × String)) (t : String)
    → All IsEntry ps
    → is_named ps t ≡ true
    → is_key t ≡ true
named-is_key [] t e h = cc
named-is_key ((key, v) ∷ rest) t e h = elim (Bool-cases (t == key)) [
  | inl same ↦ subst (λ k. is_key k ≡ true) (sym ((eq_iff t key).0 same)) e.0.0
  | inr other ↦ named-is_key rest t e.1 (rw other at h)
]

template-IsPiece :
    (ps : List (String × String)) (pieces : List Piece)
    → All IsEntry ps
    → AreApart ps ps
    → All (IsTemplate ps) pieces
    → All (IsPiece ps (λ name. name)) pieces
template-IsPiece ps [] e apart h = tt
template-IsPiece ps (plain c ∷ pieces) e apart h = (h.0, template-IsPiece ps pieces e apart h.1)
template-IsPiece ps (bracketed c ∷ pieces) e apart h = (h.0, template-IsPiece ps pieces e apart h.1)
template-IsPiece ps (slot name ∷ pieces) e apart h =
    let key = named-is_key ps name e h.0 in
    let others = named-all_apart ps ps name apart h.0 in
    (ground arith, template-IsPiece ps pieces e apart h.1)

pub replace_all-template :
    (ps : List (String × String)) (pieces : List Piece)
    → All IsEntry ps
    → AreApart ps ps
    → All (IsTemplate ps) pieces
    → replace_all ps (text_of (λ name. name) pieces) ≡ text_of (value_of ps) pieces
replace_all-template ps pieces e apart h =
    replace_all-text_of ps (λ name. name) pieces e (template-IsPiece ps pieces e apart h)
    ∙ ap (λ value. text_of value pieces) (fun_ext λ name. settled-value_of ps name e)
