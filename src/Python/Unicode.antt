-- ===== src/Python/Unicode.antt =====
-- Texts as code points, and what the program takes from the Unicode database: it is not part of the
-- repository, so it is an interface, with its values at ASCII as a predicate.
use Prim.Native.Char.{code}
use schedualerl_lm.Base.{
  ℕ, ◌+◌, ◌-◌, String, Bool, true, false, ◌&&◌, ◌||◌, List, [], ◌∷◌, map, leb, eqb, if◌then◌else◌,
}

abbrev pub Text : Type 0
Text = List ℕ

-- The code points of a text.
abbrev pub codes : String → Text
codes String.[] = []
codes (String.◌∷◌ c s) = code c ∷ codes s

abbrev pub same_text : Text → Text → Bool
same_text [] [] = true
same_text (c ∷ s) (d ∷ t) = eqb c d && same_text s t
same_text _ _ = false

-- The classes `\w`, `\s` and `\d`, the value of a digit, the letter that `re.IGNORECASE` compares,
-- and `str.lower()`.
pub record Unicode : Type 0 where
  pub is_word : ℕ → Bool
  pub is_space : ℕ → Bool
  pub is_digit : ℕ → Bool
  pub digit_value : ℕ → ℕ
  pub fold : ℕ → ℕ
  pub lower : Text → Text

abbrev pub in_range : ℕ → ℕ → ℕ → Bool
in_range lo hi c = leb lo c && leb c hi

abbrev ascii_lower : ℕ → ℕ
ascii_lower c = if in_range b'A' b'Z' c then c + 32 else c

-- The database at ASCII.
abbrev pub ascii : Unicode
ascii = record {
  is_word = λ c. in_range b'a' b'z' c || in_range b'A' b'Z' c || in_range b'0' b'9' c || eqb c b'_';
  is_space = λ c. in_range 9 13 c || in_range 28 32 c;
  is_digit = in_range b'0' b'9';
  digit_value = λ c. c - b'0';
  fold = ascii_lower;
  lower = map ascii_lower;
}
