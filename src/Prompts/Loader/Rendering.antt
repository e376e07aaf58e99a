-- ===== src/Prompts/Loader/Rendering.antt =====
-- Filling in the placeholders of a template one after the other puts each value in its place.
pub mod Filled
pub mod Prompt
use Prim.Native.Char.{Char, code}
use schedualerl_lm.Base.{
  eq_iff, ℕ, zero, suc, ◌-◌, ◌≡◌, refl, sym, ap, ◌∙◌, String, Bool, true, false, ◌&&◌, ◌||◌, not,
  ◌==◌, List, [], ◌∷◌, All, eqb, if◌then◌else◌, Bool-cases, inl, inr, arith,
}
use schedualerl_lm.Python.Strings.{
  append, startswith, contains, replace, replace_after, string_length,
}

-- A character that opens no placeholder, a bracket with a character after it that starts none, or a
-- placeholder.
pub data Piece : Type 0 where
  plain : Char → Piece
  bracketed : Char → Piece
  slot : String → Piece

-- No character is an opening bracket.
abbrev pub has_no_bracket : String → Bool
has_no_bracket String.[] = true
has_no_bracket (String.◌∷◌ c s) = not (eqb (code c) b'[') && has_no_bracket s

-- The text of a template, where the placeholders stand for what a function says.
abbrev pub text_of : (String → String) → List Piece → String
text_of value [] = String.[]
text_of value (plain c ∷ pieces) = String.◌∷◌ c (text_of value pieces)
text_of value (bracketed c ∷ pieces) = append "[" (String.◌∷◌ c (text_of value pieces))
text_of value (slot key ∷ pieces) = append (value key) (text_of value pieces)

-- Two texts differ before either of them ends.
abbrev pub differ : String → String → Bool
differ (String.◌∷◌ c s) (String.◌∷◌ d t) = not (eqb (code c) (code d)) || differ s t
differ _ _ = false

-- A text like those of the placeholders.
abbrev pub is_key : String → Bool
is_key (String.◌∷◌ c (String.◌∷◌ d s)) =
    eqb (code c) b'[' && (eqb (code d) b'I' && has_no_bracket s)
is_key _ = false

startswith-differ : (q p rest : String) → differ q p ≡ true → startswith (append q rest) p ≡ false
startswith-differ String.[] p rest h = cc
startswith-differ (String.◌∷◌ c s) String.[] rest h = cc
startswith-differ (String.◌∷◌ c s) (String.◌∷◌ d t) rest h =
    ground (arith, startswith-differ s t rest)

startswith-append : (p rest : String) → startswith (append p rest) p ≡ true
startswith-append String.[] rest = refl
startswith-append (String.◌∷◌ c s) rest = ground (arith, startswith-append s rest)

skipped :
    (p v s rest : String)
    → replace_after (string_length s) p v (append s rest) ≡ replace_after 0 p v rest
skipped p v String.[] rest = refl
skipped p v (String.◌∷◌ c s) rest = skipped p v s rest

-- No placeholder begins at another character than a bracket, or at a bracket before another one than I.
startswith-other :
    (key : String) (c : Char) (s : String)
    → is_key key ≡ true
    → eqb (code c) b'[' ≡ false
    → startswith (String.◌∷◌ c s) key ≡ false
startswith-other (String.◌∷◌ d (String.◌∷◌ e t)) c s k h = ground arith
startswith-other (String.◌∷◌ d String.[]) c s k h = cc
startswith-other String.[] c s k h = cc

startswith-bracket :
    (key : String) (c : Char) (s : String)
    → is_key key ≡ true
    → eqb (code c) b'I' ≡ false
    → startswith (append "[" (String.◌∷◌ c s)) key ≡ false
startswith-bracket (String.◌∷◌ d (String.◌∷◌ e t)) c s k h = ground arith
startswith-bracket (String.◌∷◌ d String.[]) c s k h = cc
startswith-bracket String.[] c s k h = cc

module _ (key v : String) (k : is_key key ≡ true) where
  after_plain :
      (c : Char) (rest : String)
      → eqb (code c) b'[' ≡ false
      → replace_after 0 key v (String.◌∷◌ c rest) ≡ String.◌∷◌ c (replace_after 0 key v rest)
  after_plain c rest h = rw (replace_after, startswith-other key c rest k h) refl

  after_no_bracket :
      (s rest : String)
      → has_no_bracket s ≡ true
      → replace_after 0 key v (append s rest) ≡ append s (replace_after 0 key v rest)
  after_no_bracket String.[] rest h = refl
  after_no_bracket (String.◌∷◌ c s) rest h =
      rw (after_plain c (append s rest) (ground arith), after_no_bracket s rest (ground arith)) refl

  after_bracketed :
      (c : Char) (rest : String)
      → eqb (code c) b'[' ≡ false
      → eqb (code c) b'I' ≡ false
      → replace_after 0 key v (append "[" (String.◌∷◌ c rest))
        ≡ append "[" (String.◌∷◌ c (replace_after 0 key v rest))
  after_bracketed c rest h i =
      rw (replace_after, startswith-bracket key c rest k i, after_plain c rest h) refl

  after_other :
      (q rest : String)
      → is_key q ≡ true
      → differ q key ≡ true
      → replace_after 0 key v (append q rest) ≡ append q (replace_after 0 key v rest)
  after_other (String.◌∷◌ d (String.◌∷◌ e t)) rest j h =
      rw
        (
          replace_after,
          startswith-differ (String.◌∷◌ d (String.◌∷◌ e t)) key rest h,
          after_no_bracket (String.◌∷◌ e t) rest (ground arith),
        )
        refl
  after_other (String.◌∷◌ d String.[]) rest j h = cc
  after_other String.[] rest j h = cc

after_same :
    (key v rest : String)
    → is_key key ≡ true
    → replace_after 0 key v (append key rest) ≡ append v (replace_after 0 key v rest)
after_same (String.◌∷◌ d (String.◌∷◌ e t)) v rest k =
    let key = String.◌∷◌ d (String.◌∷◌ e t) in
    rw (replace_after, startswith-append key rest)
      (ap (append v) (
        let less : suc (suc (string_length t)) - 1 ≡ suc (string_length t) = omega arith in
        rw less (skipped key v (String.◌∷◌ e t) rest)))
after_same (String.◌∷◌ d String.[]) v rest k = cc
after_same String.[] v rest k = cc

-- A text that the rest of the placeholders leaves, or one of them.
abbrev pub all_apart : List (String × String) → String → Bool
all_apart [] t = true
all_apart ((key, v) ∷ rest) t = (t == key || differ t key) && all_apart rest t

abbrev pub is_ready : List (String × String) → String → Bool
is_ready ps t = has_no_bracket t || (is_key t && all_apart ps t)

-- What becomes of a text.
abbrev pub settled : List (String × String) → String → String
settled [] t = t
settled ((key, v) ∷ rest) t = settled rest (if t == key then v else t)

after_ready :
    (key v t rest : String) (ps : List (String × String))
    → is_key key ≡ true
    → is_ready ((key, v) ∷ ps) t ≡ true
    → replace_after 0 key v (append t rest)
      ≡ append (if t == key then v else t) (replace_after 0 key v rest)
after_ready key v t rest ps k ready = elim (Bool-cases (t == key)) [
  | inl same ↦ rw (same, (eq_iff t key).0 same) (after_same key v rest k)
  | inr other ↦ elim (Bool-cases (has_no_bracket t)) [
    | inl free ↦ rw other (after_no_bracket key v k t rest free)
    | inr bracket ↦
        let placeholder : is_key t ≡ true = ground arith in
        let apart : differ t key ≡ true = ground arith in
        rw other (after_other key v k t rest placeholder apart)
  ]
]

-- The pieces of a template, for what the placeholders stand for.
abbrev pub IsPiece : List (String × String) → (String → String) → Piece → Type 0
IsPiece ps value (plain c) = eqb (code c) b'[' ≡ false
IsPiece ps value (bracketed c) = (eqb (code c) b'[' ≡ false) × (eqb (code c) b'I' ≡ false)
IsPiece ps value (slot key) = is_ready ps (value key) ≡ true

pub replace-text_of :
    (key v : String) (ps : List (String × String)) (value : String → String) (pieces : List Piece)
    → is_key key ≡ true
    → All (IsPiece ((key, v) ∷ ps) value) pieces
    → replace (text_of value pieces) key v
      ≡ text_of (λ name. if value name == key then v else value name) pieces
unfolding replace
replace-text_of key v ps value [] k h = refl
replace-text_of key v ps value (plain c ∷ pieces) k h =
    rw (after_plain key v k c (text_of value pieces) h.0)
      (ap (String.◌∷◌ c) (replace-text_of key v ps value pieces k h.1))
replace-text_of key v ps value (bracketed c ∷ pieces) k h =
    rw (after_bracketed key v k c (text_of value pieces) h.0.0 h.0.1)
      (ap (λ t. append "[" (String.◌∷◌ c t)) (replace-text_of key v ps value pieces k h.1))
replace-text_of key v ps value (slot name ∷ pieces) k h =
    after_ready key v (value name) (text_of value pieces) ps k h.0
    ∙ ap (append (if value name == key then v else value name))
        (replace-text_of key v ps value pieces k h.1)
