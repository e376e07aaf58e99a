-- ===== src/Db/Engine/Connecting.antt =====
-- When a connection is made, and with what it fails.
use mathlib.Core.Path.{subst}
use schedualerl_lm.Base.{
  ℕ, zero, suc, ◌+◌, ◌≤◌, ◌<◌, ◌≡◌, refl, true, false, Bool-cases, arith, inl, inr, ◌⊎◌,
}
use schedualerl_lm.Config.{DatabaseSettings}
use schedualerl_lm.Db.Engine.{Driver, attempt, async_creator, more_attempts, connection_failure}
use schedualerl_lm.Python.Result.{Exn, Result, ok, err, Result-cases}

module _ (driver : Driver) (settings : DatabaseSettings) where
  -- An attempt that fails with an error that is worth another one.
  abbrev pub IsRetried : Result driver.Connection → Type 0
  IsRetried (ok connection) = ⊥
  IsRetried (err e) = driver.is_connection_error e ≡ true

  -- After attempts that are retried, the first one that is not decides, and if there is none the
  -- failure is reported.
  abbrev pub IsDecided : ℕ → ℕ → Result driver.Connection → Type 0
  IsDecided more n r =
      ((k : ℕ) × (k ≤ more)
        × ((j : ℕ) → j < k → IsRetried (driver.connect (n + j)))
        × (driver.connect (n + k) ≡ r)
        × (IsRetried r → ⊥))
      ⊎ (((j : ℕ) → j ≤ more → IsRetried (driver.connect (n + j)))
          × (r ≡ err (connection_failure driver.show_number settings)))

  shift : (P : ℕ → Type 0) (j n : ℕ) → P (suc n + j) → P (n + suc j)
  shift P j n = subst P (let e : suc n + j ≡ n + suc j = omega arith in e)

  still : (P : ℕ → Type 0) (n : ℕ) → P n → P (n + 0)
  still P n = subst P (let e : n ≡ n + 0 = omega arith in e)

  before_all :
      (n bound : ℕ)
      → IsRetried (driver.connect n)
      → ((i : ℕ) → i < bound → IsRetried (driver.connect (suc n + i)))
      → (j : ℕ) → j < suc bound
      → IsRetried (driver.connect (n + j))
  before_all n bound first rest zero less = still (λ m. IsRetried (driver.connect m)) n first
  before_all n bound first rest (suc i) less =
      shift (λ m. IsRetried (driver.connect m)) i n (rest i (omega arith))

  -- The first attempt is retried, and so on from the second.
  later-IsDecided :
      (more n : ℕ) (r : Result driver.Connection)
      → IsRetried (driver.connect n)
      → IsDecided more (suc n) r
      → IsDecided (suc more) n r
  later-IsDecided more n r first (inl (k, within, before, last, decides)) = inl (
    suc k,
    omega arith,
    before_all n k first before,
    shift (λ m. driver.connect m ≡ r) k n last,
    decides,
  )
  later-IsDecided more n r first (inr (all, failed)) = inr (
    (λ j within. before_all n (suc more) first (λ i less. all i (omega arith)) j (omega arith)),
    failed,
  )

  only_one :
      (n : ℕ) → IsRetried (driver.connect n) → (j : ℕ) → j ≤ 0 → IsRetried (driver.connect (n + j))
  only_one n first j within = before_all n 0 first (λ i less. absurd (omega arith)) j (omega arith)

  differs :
      (e : Exn) → driver.is_connection_error e ≡ false → driver.is_connection_error e ≡ true → ⊥
  differs e other retried = cc

  here :
      (more n : ℕ) (r : Result driver.Connection)
      → driver.connect n ≡ r
      → (IsRetried r → ⊥)
      → IsDecided more n r
  here more n r e decides = inl (
    0,
    omega arith,
    (λ j less. absurd (omega arith)),
    still (λ m. driver.connect m ≡ r) n e,
    decides,
  )

  attempt-IsDecided : (more n : ℕ) → IsDecided more n (attempt driver settings more n)
  unfolding attempt
  attempt-IsDecided zero n = elim (Result-cases (driver.connect n)) [
    | inr (connection, made) ↦ rw (made, attempt) (here 0 n (ok connection) made (λ bad. bad))
    | inl (e, failed) ↦ elim (Bool-cases (driver.is_connection_error e)) [
      | inl retried ↦ rw (failed, retried, attempt) (inr (only_one n (rw failed retried), refl))
      | inr other ↦ rw (failed, other, attempt) (here 0 n (err e) failed (differs e other))
    ]
  ]
  attempt-IsDecided (suc more) n = elim (Result-cases (driver.connect n)) [
    | inr (connection, made) ↦
        rw (made, attempt) (here (suc more) n (ok connection) made (λ bad. bad))
    | inl (e, failed) ↦ elim (Bool-cases (driver.is_connection_error e)) [
      | inl retried ↦
          rw (failed, retried, attempt)
            (later-IsDecided more n _ (rw failed retried) (attempt-IsDecided more (suc n)))
      | inr other ↦ rw (failed, other, attempt) (here (suc more) n (err e) failed (differs e other))
    ]
  ]

  -- Connecting to the database gives what the first attempt gives that is no connection error, a
  -- connection or another exception, if it is among the configured number of attempts, of which
  -- there is one at least; if all of them are connection errors, it fails with a
  -- DatabaseConnectionError that names the server.
  pub async_creator-IsDecided :
      IsDecided (more_attempts settings.connect_retries) 0 (async_creator driver settings)
  unfolding async_creator
  async_creator-IsDecided = attempt-IsDecided (more_attempts settings.connect_retries) 0
