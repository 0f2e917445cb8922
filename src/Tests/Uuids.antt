-- ===== src/Tests/Uuids.antt =====
-- A concrete uuid crate: 32 base-16 digits, the least significant first, in the sixteen characters
-- from `0` on. It shows that the laws asked of the crate can hold.
use otdel.Prelude.{ℕ, zero, suc, ◌+◌, ◌-◌, ◌*◌, ◌/◌, ◌%◌, ◌^◌, ◌<◌, ◌≡◌, ap, some, [], ◌∷◌, arith}
use otdel.Prelude.Text.{Text, Lacks}
use native.Mathlib.Nat.{pow-suc}
use otdel.Storage.Uuid.{UuidText, IsUuidText}

digits : ℕ → ℕ → Text
digits zero u = []
digits (suc n) u = (b'0' + u % 16) ∷ digits n (u / 16)

value : Text → ℕ
value [] = 0
value (c ∷ s) = (c - b'0') + 16 * value s

value-digits : (n u : ℕ) → u < 16 ^ n → value (digits n u) ≡ u
unfolding value digits
value-digits zero u h = omega arith
value-digits (suc n) u h = omega (arith, value-digits n (u / 16) (omega (arith, pow-suc 16 n, h)))

digits-Lacks : (n u : ℕ) → Lacks b'/' (digits n u)
unfolding digits
digits-Lacks zero u = tt
digits-Lacks (suc n) u = (omega arith, digits-Lacks n (u / 16))

unfoldable pub uuids : UuidText
unfolding digits value
uuids = record { format = digits 32; parse_str = λ s. some (value s) }

pub uuids-IsUuidText : IsUuidText uuids
unfolding uuids
uuids-IsUuidText = record {
  parse_str-format = λ u h. ap some (value-digits 32 u h);
  format-Lacks = digits-Lacks 32;
}
