-- ===== src/Prelude/Results.antt =====
-- Rust's `Result<T, E>` with its `?`, and error messages. A message that the source builds by
-- `format!` is kept as its pieces: the literal parts and the values put between them.
use Prim.Native.Nat.{ℕ}
use Prim.Native.String.{String}
use mathlib.Core.Path.{◌≡◌, refl}
use mathlib.Core.Logic.{◌⊎◌, inl, inr}
use mathlib.Core.List.{List}
use native.Mathlib.Omega.{arith}
use mathlib.Core.Option.{Option, none, some}

pub data Result {ℓ κ} (A : Type ℓ) (E : Type κ) : Type (ℓ ⊔ κ) where
  ok : A → Result A E
  err : E → Result A E

-- The `?` of a fallible step: an error ends the function.
module _ {ℓ κ μ} {E : Type μ} {A : Type ℓ} {B : Type κ} where
  infixl 5 ◌>>=◌ ◌>>◌
  abbrev pub ◌>>=◌ : Result A E → (A → Result B E) → Result B E
  err failure >>= next = err failure
  ok value >>= next = next value

  abbrev pub ◌>>◌ : Result A E → Result B E → Result B E
  step >> rest = step >>= λ _. rest

  -- `map_err`
  abbrev pub map_err : (E → B) → Result A E → Result A B
  map_err f (ok value) = ok value
  map_err f (err failure) = err (f failure)

  -- A function that returns `Ok` has passed its first step.
  pub >>=-passed :
      (step : Result A E) (next : A → Result B E) {out : B}
      → (step >>= next) ≡ ok out
      → (value : A) × (step ≡ ok value) × (next value ≡ ok out)
  >>=-passed (err failure) next h = absurd (ground (arith, h))
  >>=-passed (ok value) next h = (value, refl, h)

module _ {ℓ κ} {A : Type ℓ} {E : Type κ} where
  -- `ok_or`
  abbrev pub ok_or : Option A → E → Result A E
  ok_or (some value) failure = ok value
  ok_or none failure = err failure

  pub ok_or-eq_ok : (o : Option A) (failure : E) {a : A} → ok_or o failure ≡ ok a → o ≡ some a
  ok_or-eq_ok (some value) failure h = ground arith
  ok_or-eq_ok none failure h = absurd (ground (arith, h))

  pub Result-cases : (m : Result A E) → ((a : A) × (m ≡ ok a)) ⊎ ((e : E) × (m ≡ err e))
  Result-cases (ok a) = inl (a, refl)
  Result-cases (err e) = inr (e, refl)

pub map_err-eq_ok {ℓ κ μ} :
    {A : Type ℓ} {E : Type κ} {F : Type μ} (f : E → F) (r : Result A E) {a : A}
    → map_err f r ≡ ok a
    → r ≡ ok a
map_err-eq_ok f (ok value) h = ground (arith, h)
map_err-eq_ok f (err failure) h = absurd (ground (arith, h))

pub paired {ℓ κ} :
    {A : Type ℓ} {B : Type κ} (r : A × B) {a : A} {b : B} → r.0 ≡ a → r.1 ≡ b → r ≡ (a, b)
paired r p q i = (p i, q i)

-- A step on a state, then a result from what it gave: both have been passed.
module _ {ℓ κ μ ν} {E : Type μ} {A : Type ℓ} {S : Type ν} {B : Type κ} where
  pub >>=-state :
      (step : Result (A × S) E) (next : S → A → Result B E) {out : B} {state : S}
      → (step >>= λ given. ◌>>=◌ {B = B × S} (next given.1 given.0) (λ value. ok (value, given.1)))
        ≡ ok (out, state)
      → (value : A) × (step ≡ ok (value, state)) × (next state value ≡ ok out)
  >>=-state (err failure) next h = absurd (ground (arith, h))
  >>=-state (ok (value, state')) next {out} {state} h = elim (Result-cases (next state' value)) [
    | inr (failure, e) ↦ absurd (ground arith)
    | inl (value', e) ↦ (value, ground arith, ground arith)
  ]

pub data Piece : Type 0 where
  lit : String → Piece
  arg : List ℕ → Piece
  num : ℕ → Piece

abbrev pub Message : Type 0
Message = List Piece
