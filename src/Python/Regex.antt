-- ===== src/Python/Regex.antt =====
-- The part of `re` that the program's patterns use: a backtracking matcher whose repetitions are of
-- one character class, so it ends without fuel.
use schedualerl_lm.Base.{
  ℕ, zero, suc, ◌-◌, Bool, true, false, ◌&&◌, not, Option, none, some, List, [], ◌∷◌, length, take,
  eqb, if◌then◌else◌,
}
use schedualerl_lm.Python.Unicode.{Text, Unicode}

pub data Regex : Type 0 where
  -- one character of a class
  one : (ℕ → Bool) → Regex
  -- at least so many characters of a class, and at most so many, the most first
  repeat : (ℕ → Bool) → ℕ → Option ℕ → Regex
  -- `\b`
  boundary : Regex
  nothing : Regex
  seq : Regex → Regex → Regex
  -- `a|b` and `a?`
  alt : Regex → Regex → Regex
  optional : Regex → Regex
  -- a group, by its number
  group : ℕ → Regex → Regex

-- A place in the text: the character before it, the rest, and the groups so far.
pub record Place : Type 0 where
  pub before : Option ℕ
  pub rest : Text
  pub groups : List (ℕ × Text)

abbrev advance : Place → ℕ → Text → Place
advance s c cs = record s { before = some c; rest = cs }

-- The text between two places.
abbrev pub between : Place → Place → Text
between s s' = take (length s.rest - length s'.rest) s.rest

abbrev capture : ℕ → Place → Place → Place
capture n s s' = record s' { groups = (n, between s s') ∷ s'.groups }

-- `match.group(n)`
abbrev pub find_group : ℕ → List (ℕ × Text) → Option Text
find_group n [] = none
find_group n ((m, t) ∷ groups) = if eqb m n then some t else find_group n groups

abbrev pub match_group : ℕ → Place → Option Text
match_group n s = find_group n s.groups

-- Whether there is room for one more, and how much is left then.
abbrev has_room : Option ℕ → Bool
has_room none = true
has_room (some zero) = false
has_room (some (suc n)) = true

abbrev less_room : Option ℕ → Option ℕ
less_room none = none
less_room (some n) = some (n - 1)

module _ (u : Unicode) where
  abbrev word_at : Option ℕ → Bool
  word_at none = false
  word_at (some c) = u.is_word c

  abbrev pub at_boundary : Option ℕ → Text → Bool
  at_boundary before [] = word_at before
  at_boundary before (c ∷ cs) = if word_at before then not (u.is_word c) else u.is_word c

  run_one : (ℕ → Bool) → Place → Text → (Place → Option Place) → Option Place
  run_one p s [] k = none
  run_one p s (c ∷ cs) k = elim (p c) [ true ↦ k (advance s c cs) | false ↦ none ]

  -- Stopping a repetition where enough were read.
  run_stop : ℕ → Place → (Place → Option Place) → Option Place
  run_stop zero s k = k s
  run_stop (suc n) s k = none

  run_repeat :
      (ℕ → Bool)
      → ℕ
      → Option ℕ
      → Option ℕ
      → List (ℕ × Text)
      → Text
      → (Place → Option Place)
      → Option Place
  run_repeat p least most before groups [] k =
      run_stop least (record { before = before; rest = []; groups = groups }) k
  run_repeat p least most before groups (c ∷ cs) k =
      let more = run_repeat p (least - 1) (less_room most) (some c) groups cs k in
      let stop = run_stop least (record { before = before; rest = c ∷ cs; groups = groups }) k in
      elim (p c && has_room most) [
        | true ↦ elim more [ some r ↦ some r | none ↦ stop ]
        | false ↦ stop
      ]

  -- A match from a place on, for what is to match behind it.
  unfoldable pub run : Regex → Place → (Place → Option Place) → Option Place
  unfolding run_one run_repeat run_stop
  run (one p) s k = run_one p s s.rest k
  run (repeat p least most) s k = run_repeat p least most s.before s.groups s.rest k
  run boundary s k = elim (at_boundary s.before s.rest) [ true ↦ k s | false ↦ none ]
  run nothing s k = k s
  run (seq a b) s k = run a s (λ s'. run b s' k)
  run (alt a b) s k = elim (run a s k) [ some r ↦ some r | none ↦ run b s k ]
  run (optional a) s k = elim (run a s k) [ some r ↦ some r | none ↦ k s ]
  run (group n a) s k = run a s (λ s'. k (capture n s s'))

  search_from : Regex → Option ℕ → Text → Option Place
  search_from r before [] = run r (record { before = before; rest = []; groups = [] }) some
  search_from r before (c ∷ cs) =
      let later = search_from r (some c) cs in
      elim (run r (record { before = before; rest = c ∷ cs; groups = [] }) some) [
        | some s ↦ some s
        | none ↦ later
      ]

  -- `re.search`: where the first match ends, with its groups.
  unfoldable pub re_search : Regex → Text → Option Place
  unfolding search_from run
  re_search r text = search_from r none text

  -- A letter, or a word, under `re.IGNORECASE`.
  abbrev pub letter : ℕ → ℕ → Bool
  letter x c = eqb (u.fold c) (u.fold x)

  abbrev pub word : Text → Regex
  word [] = nothing
  word (c ∷ cs) = seq (one (letter c)) (word cs)

  -- Literal text without that flag.
  abbrev pub literal : Text → Regex
  literal [] = nothing
  literal (c ∷ cs) = seq (one (λ d. eqb d c)) (literal cs)

-- `a|b|…`, of at least one
abbrev pub any_of : Regex → List Regex → Regex
any_of r [] = r
any_of r (s ∷ rest) = alt r (any_of s rest)
