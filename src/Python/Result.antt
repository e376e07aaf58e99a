-- ===== src/Python/Result.antt =====
-- Exceptions as values.
use schedualerl_lm.Base.{Bool, true, false, ℕ, String, ◌≡◌, refl, ◌⊎◌, inl, inr}

-- The exceptions that the program raises or that reach it. `other` stands for an exception of a
-- third-party package that no handler of the program names.
pub data Exn : Type 0 where
  http_exception : ℕ → String → Exn
  value_error : String → Exn
  key_error : String → Exn
  validation_error : String → Exn
  overflow_error : Exn
  assertion_error : Exn
  runtime_error : String → Exn
  trigger_parse_error : String → Exn
  prompt_load_error : String → Exn
  http_status_error : ℕ → String → Exn
  request_error : String → Exn
  integrity_error : String → Exn
  database_connection_error : String → Exn
  other : String → Exn

pub data Result {ℓ} (A : Type ℓ) : Type ℓ where
  err : Exn → Result A
  ok : A → Result A

module _ {ℓ κ} {X : Type ℓ} {Y : Type κ} where
  infixl 5 ◌>>=◌ ◌>>◌
  abbrev pub ◌>>=◌ : Result X → (X → Result Y) → Result Y
  ◌>>=◌ (err e) next = err e
  ◌>>=◌ (ok x) next = next x

  abbrev pub ◌>>◌ : Result X → Result Y → Result Y
  first >> second = first >>= λ _. second

  pub >>=-eq-ok :
      (r : Result X) (next : X → Result Y) {y : Y}
      → (r >>= next) ≡ ok y
      → (x : X) × (r ≡ ok x) × (next x ≡ ok y)
  >>=-eq-ok (err e) next h = cc
  >>=-eq-ok (ok x) next h = (x, refl, h)

-- To split on a result and keep the equation.
pub Result-cases {ℓ} :
    {A : Type ℓ} (r : Result A) → ((e : Exn) × (r ≡ err e)) ⊎ ((a : A) × (r ≡ ok a))
Result-cases (ok a) = inr (a, refl)
Result-cases (err e) = inl (e, refl)

abbrev pub is_ok {ℓ} : {A : Type ℓ} → Result A → Bool
is_ok (ok a) = true
is_ok (err e) = false

-- The exceptions that a result may hold.
abbrev pub FailsOnly {ℓ} : {A : Type ℓ} → (Exn → Type 0) → Result A → Type 0
FailsOnly fails (ok a) = Unit
FailsOnly fails (err e) = fails e

abbrev pub IsParseError : Exn → Type 0
IsParseError (trigger_parse_error message) = Unit
IsParseError _ = ⊥

abbrev pub IsValueError : Exn → Type 0
IsValueError (value_error message) = Unit
IsValueError _ = ⊥

pub FailsOnly->>= :
    (fails : Exn → Type 0) {A B : Type 0} (r : Result A) (next : A → Result B)
    → FailsOnly fails r
    → ((a : A) → r ≡ ok a → FailsOnly fails (next a))
    → FailsOnly fails (r >>= next)
FailsOnly->>= fails (ok a) next h k = k a refl
FailsOnly->>= fails (err e) next h k = h
