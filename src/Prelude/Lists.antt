-- ===== src/Prelude/Lists.antt =====
-- Lists measured by native numbers, under the library's names, and predicates over all elements.
use Prim.Native.Nat.{ℕ, zero, suc, ◌+◌, min}
use mathlib.Core.Path.{◌≡◌, refl}
use mathlib.Core.Logic.{◌⊎◌, inl, inr}
use mathlib.Core.Bool.{Bool, true, false, ◌&&◌, ◌||◌}
use mathlib.Core.List.{List, [], ◌∷◌, ◌++◌}
use mathlib.Core.Option.{Option, none, some}
use native.Mathlib.Omega.{arith}
use otdel.Prelude.Tests.{if◌then◌else◌}

module _ {ℓ} {A : Type ℓ} where
  abbrev pub length : List A → ℕ
  length [] = 0
  length (x ∷ xs) = suc (length xs)

  abbrev pub take : ℕ → List A → List A
  take zero xs = []
  take (suc n) [] = []
  take (suc n) (x ∷ xs) = x ∷ take n xs

  abbrev pub all : List A → (A → Bool) → Bool
  all [] p = true
  all (x ∷ xs) p = p x && all xs p

  abbrev pub any : List A → (A → Bool) → Bool
  any [] p = false
  any (x ∷ xs) p = p x || any xs p

  abbrev pub filter : List A → (A → Bool) → List A
  filter [] p = []
  filter (x ∷ xs) p = if p x then x ∷ filter xs p else filter xs p

  -- The first element that passes.
  abbrev pub find? : List A → (A → Bool) → Option A
  find? [] p = none
  find? (x ∷ xs) p = if p x then some x else find? xs p

  abbrev pub is_empty : List A → Bool
  is_empty [] = true
  is_empty (x ∷ xs) = false

  pub length-append : (xs ys : List A) → length (xs ++ ys) ≡ length xs + length ys
  length-append [] ys = omega arith
  length-append (x ∷ xs) ys = omega (arith, length-append xs ys)

  pub length-take : (n : ℕ) (xs : List A) → length (take n xs) ≡ min n (length xs)
  length-take zero xs = omega arith
  length-take (suc n) [] = omega arith
  length-take (suc n) (x ∷ xs) = omega (arith, length-take n xs)

  pub all-append : (p : A → Bool) (xs ys : List A) → all (xs ++ ys) p ≡ (all xs p && all ys p)
  all-append p [] ys = refl
  all-append p (x ∷ xs) ys = ground (arith, all-append p xs ys)

  pub all-take : (p : A → Bool) (n : ℕ) (xs : List A) → all xs p ≡ true → all (take n xs) p ≡ true
  all-take p zero xs h = refl
  all-take p (suc n) [] h = refl
  all-take p (suc n) (x ∷ xs) h = ground (arith, all-take p n xs)

-- Every element has the property.
module _ {ℓ κ} {A : Type ℓ} (P : A → Type κ) where
  abbrev pub All : List A → Type κ
  All [] = Unit
  All (first ∷ rest) = P first × All rest

module _ {A : Type 0} where
  -- The element is in the list.
  infix 4 ◌∈◌
  abbrev pub ◌∈◌ : A → List A → Type 0
  x ∈ [] = ⊥
  x ∈ (first ∷ rest) = (x ≡ first) ⊎ (x ∈ rest)

  pub ∈-append_left : (x : A) (xs ys : List A) → x ∈ xs → x ∈ (xs ++ ys)
  ∈-append_left x [] ys h = absurd h
  ∈-append_left x (first ∷ xs) ys (inl e) = inl e
  ∈-append_left x (first ∷ xs) ys (inr h) = inr (∈-append_left x xs ys h)

  pub ∈-append_right : (x : A) (xs ys : List A) → x ∈ ys → x ∈ (xs ++ ys)
  ∈-append_right x [] ys h = h
  ∈-append_right x (first ∷ xs) ys h = inr (∈-append_right x xs ys h)
