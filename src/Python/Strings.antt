-- ===== src/Python/Strings.antt =====
-- `str` methods, on the characters of a text.
use Prim.Native.Char.{code}
use schedualerl_lm.Base.{ℕ, zero, suc, ◌-◌, String, Bool, true, false, ◌&&◌, ◌||◌, eqb}
use schedualerl_lm.Python.Unicode.{Unicode}

-- `len(s)`
abbrev pub string_length : String → ℕ
string_length String.[] = 0
string_length (String.◌∷◌ c s) = suc (string_length s)

-- `s + t`, character by character.
abbrev pub append : String → String → String
append String.[] t = t
append (String.◌∷◌ c s) t = String.◌∷◌ c (append s t)

-- `s.startswith(prefix)`
abbrev pub startswith : String → String → Bool
startswith s String.[] = true
startswith String.[] (String.◌∷◌ d prefix) = false
startswith (String.◌∷◌ c s) (String.◌∷◌ d prefix) = eqb (code c) (code d) && startswith s prefix

-- `part in s`
abbrev pub contains : String → String → Bool
contains part String.[] = startswith String.[] part
contains part (String.◌∷◌ c s) = startswith (String.◌∷◌ c s) part || contains part s

-- `s.replace(old, new)` of an `old` that is not empty, where the first `skip` characters belong to an
-- occurrence that is already replaced.
abbrev pub replace_after : ℕ → String → String → String → String
replace_after skip old new String.[] = String.[]
replace_after (suc skip) old new (String.◌∷◌ c s) = replace_after skip old new s
replace_after zero old new (String.◌∷◌ c s) = elim (startswith (String.◌∷◌ c s) old) [
  | true ↦ append new (replace_after (string_length old - 1) old new s)
  | false ↦ String.◌∷◌ c (replace_after 0 old new s)
]

unfoldable pub replace : String → String → String → String
replace s old new = replace_after 0 old new s

module _ (u : Unicode) where
  abbrev lstrip : String → String
  lstrip String.[] = String.[]
  lstrip (String.◌∷◌ c s) = elim (u.is_space (code c)) [ true ↦ lstrip s | false ↦ String.◌∷◌ c s ]

  -- A character before a text whose end is stripped.
  abbrev before_stripped : Bool → String → String → String
  before_stripped true c String.[] = String.[]
  before_stripped space c s = append c s

  abbrev rstrip : String → String
  rstrip String.[] = String.[]
  rstrip (String.◌∷◌ c s) =
      before_stripped (u.is_space (code c)) (String.◌∷◌ c String.[]) (rstrip s)

  -- `s.strip()`
  unfoldable pub strip : String → String
  strip s = rstrip (lstrip s)
