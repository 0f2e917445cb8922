-- ===== src/Prelude/Text/Trimmed.antt =====
-- What trimming keeps: the tests all characters pass, a bound on the length, and a trimmed text.
use Prim.Native.Nat.{ℕ, ◌≤◌}
use mathlib.Core.Path.{◌≡◌, refl, ap, ◌∙◌}
use mathlib.Core.Bool.{Bool, true, false}
use mathlib.Core.List.{[], ◌∷◌}
use native.Mathlib.Omega.{arith}
use otdel.Prelude.Lists.{length, all}
use otdel.Prelude.Text.Split.{Text}
use otdel.Prelude.Text.Trim.{trim_start_matches, trim_end_matches, trim_matches}

module _ (p : ℕ → Bool) where
  module _ (q : ℕ → Bool) where
    all-trim_start_matches : (s : Text) → all s q ≡ true → all (trim_start_matches p s) q ≡ true
    unfolding trim_start_matches
    all-trim_start_matches [] h = refl
    all-trim_start_matches (c ∷ s) h = ground (arith, all-trim_start_matches s)

    all-trim_end_matches : (s : Text) → all s q ≡ true → all (trim_end_matches p s) q ≡ true
    unfolding trim_end_matches
    all-trim_end_matches [] h = refl
    all-trim_end_matches (c ∷ s) h = ground (arith, all-trim_end_matches s)

    -- What holds of every character of a text holds of every character that trimming leaves.
    pub all-trim_matches : (s : Text) → all s q ≡ true → all (trim_matches p s) q ≡ true
    unfolding trim_matches
    all-trim_matches s h =
        all-trim_end_matches (trim_start_matches p s) (all-trim_start_matches s h)

  length-trim_start_matches : (s : Text) → length (trim_start_matches p s) ≤ length s
  unfolding trim_start_matches
  length-trim_start_matches [] = omega arith
  length-trim_start_matches (c ∷ s) = ground (arith, length-trim_start_matches s)

  length-trim_end_matches : (s : Text) → length (trim_end_matches p s) ≤ length s
  unfolding trim_end_matches
  length-trim_end_matches [] = omega arith
  length-trim_end_matches (c ∷ s) = ground (arith, length-trim_end_matches s)

  -- Trimming makes no text longer.
  pub length-trim_matches : (s : Text) → length (trim_matches p s) ≤ length s
  unfolding trim_matches
  length-trim_matches s =
      omega (arith, length-trim_start_matches s, length-trim_end_matches (trim_start_matches p s))

  trim_end_matches_idem :
      (s : Text) → trim_end_matches p (trim_end_matches p s) ≡ trim_end_matches p s
  unfolding trim_end_matches
  trim_end_matches_idem [] = refl
  trim_end_matches_idem (c ∷ s) = ground (arith, trim_end_matches_idem s)

  -- A first character that is no match stays first.
  trim_start_matches_kept :
      (c : ℕ) (s : Text)
      → p c ≡ false
      → trim_start_matches p (trim_end_matches p (c ∷ s)) ≡ trim_end_matches p (c ∷ s)
  unfolding trim_start_matches trim_end_matches
  trim_start_matches_kept c s h = ground arith

  trim_start_matches_idem :
      (s : Text)
      → trim_start_matches p (trim_end_matches p (trim_start_matches p s))
        ≡ trim_end_matches p (trim_start_matches p s)
  unfolding trim_start_matches trim_end_matches
  trim_start_matches_idem [] = refl
  trim_start_matches_idem (c ∷ s) =
      ground (arith, trim_start_matches_idem s, trim_start_matches_kept c s)

  -- A trimmed text has nothing left to trim.
  pub trim_matches_idem : (s : Text) → trim_matches p (trim_matches p s) ≡ trim_matches p s
  unfolding trim_matches
  trim_matches_idem s =
      ap (trim_end_matches p) (trim_start_matches_idem s)
      ∙ trim_end_matches_idem (trim_start_matches p s)
