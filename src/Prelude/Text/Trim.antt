-- ===== src/Prelude/Text/Trim.antt =====
-- Texts as lists of code points: character classes, trimming, case, numbers and the UTF-8 encoding.
use Prim.Native.Nat.{ℕ, zero, suc, ◌+◌, ◌-◌, ◌*◌, ◌/◌, ◌%◌, ◌^◌, ◌<◌}
use mathlib.Core.Path.{◌≡◌}
use mathlib.Core.Bool.{Bool, ◌&&◌, ◌||◌}
use mathlib.Core.Option.{Option, none, some}
use mathlib.Core.List.{List, [], ◌∷◌, ◌++◌, map}
use native.Mathlib.Omega.{arith}
use otdel.Prelude.Tests.{ltb, leb, ◌==◌, if◌then◌else◌}
use otdel.Prelude.Lists.{length}
use otdel.Prelude.Text.Split.{Text}

-- `lo <= c && c <= hi`
abbrev pub in_range : ℕ → ℕ → ℕ → Bool
in_range lo hi c = leb lo c && leb c hi

-- `char::is_control`: the general category Cc.
unfoldable pub is_control : ℕ → Bool
is_control c = ltb c 0x20 || in_range 0x7f 0x9f c

-- `char::is_whitespace`: the Unicode property White_Space.
unfoldable pub is_whitespace : ℕ → Bool
is_whitespace c =
    in_range 0x09 0x0d c
    || c == 0x20
    || c == 0x85
    || c == 0xa0
    || c == 0x1680
    || in_range 0x2000 0x200a c
    || in_range 0x2028 0x2029 c
    || c == 0x202f
    || c == 0x205f
    || c == 0x3000

unfoldable pub is_ascii_digit : ℕ → Bool
is_ascii_digit c = in_range b'0' b'9' c

unfoldable pub is_ascii_lowercase : ℕ → Bool
is_ascii_lowercase c = in_range b'a' b'z' c

unfoldable pub is_ascii_uppercase : ℕ → Bool
is_ascii_uppercase c = in_range b'A' b'Z' c

unfoldable pub is_ascii_alphanumeric : ℕ → Bool
unfolding is_ascii_digit is_ascii_lowercase is_ascii_uppercase
is_ascii_alphanumeric c = is_ascii_digit c || is_ascii_lowercase c || is_ascii_uppercase c

-- `to_ascii_lowercase`
unfoldable pub to_ascii_lowercase : Text → Text
unfolding is_ascii_uppercase
to_ascii_lowercase = map (λ c. if is_ascii_uppercase c then c + 32 else c)

module _ (p : ℕ → Bool) where
  unfoldable pub trim_start_matches : Text → Text
  trim_start_matches [] = []
  trim_start_matches (c ∷ s) = let rest = trim_start_matches s in if p c then rest else c ∷ s

  -- A trailing run goes: a character stays if something after it stays, or if it is no match.
  unfoldable pub trim_end_matches : Text → Text
  trim_end_matches [] = []
  trim_end_matches (c ∷ s) = elim (trim_end_matches s) [
    | [] ↦ if p c then [] else c ∷ []
    | d ∷ t ↦ c ∷ d ∷ t
  ]

  unfoldable pub trim_matches : Text → Text
  unfolding trim_start_matches trim_end_matches
  trim_matches s = trim_end_matches (trim_start_matches s)

unfoldable pub trim : Text → Text
unfolding is_whitespace trim_matches
trim = trim_matches is_whitespace

-- The UTF-8 encoding of a code point.
unfoldable pub encode_utf8 : ℕ → List ℕ
encode_utf8 c =
    if ltb c 0x80
    then c ∷ []
    else if ltb c 0x800
    then (0xc0 + c / 64) ∷ (0x80 + c % 64) ∷ []
    else if ltb c 0x10000
    then (0xe0 + c / 4096) ∷ (0x80 + c / 64 % 64) ∷ (0x80 + c % 64) ∷ []
    else (0xf0 + c / 262144) ∷ (0x80 + c / 4096 % 64) ∷ (0x80 + c / 64 % 64) ∷ (0x80 + c % 64) ∷ []

-- `as_bytes`, `bytes`
unfoldable pub bytes : Text → List ℕ
unfolding encode_utf8
bytes [] = []
bytes (c ∷ s) = encode_utf8 c ++ bytes s

-- `str::len`, in bytes.
unfoldable pub len : Text → ℕ
unfolding bytes
len s = length (bytes s)

-- Decimal digits, most significant first; `fuel` bounds their number.
decimal_loop : ℕ → ℕ → Text → Text
decimal_loop zero n acc = acc
decimal_loop (suc fuel) n acc =
    let rest = decimal_loop fuel (n / 10) ((b'0' + n % 10) ∷ acc) in
    if ltb n 10 then (b'0' + n % 10) ∷ acc else rest

-- `to_string` of an unsigned number: a number below `2 ^ 64` has 20 digits at most.
unfoldable pub decimal : ℕ → Text
unfolding decimal_loop
decimal n = decimal_loop 20 n []

parse_digits : ℕ → Text → Option ℕ
unfolding is_ascii_digit
parse_digits acc [] = some acc
parse_digits acc (c ∷ s) =
    let rest = parse_digits (acc * 10 + (c - b'0')) s in
    if is_ascii_digit c && ltb (acc * 10 + (c - b'0')) (2 ^ 64) then rest else none

-- `str::parse::<u64>`: one optional `+`, then digits, at least one, and no overflow.
unfoldable pub parse_u64 : Text → Option ℕ
unfolding parse_digits
parse_u64 [] = none
parse_u64 (c ∷ []) = if c == b'+' then none else parse_digits 0 (c ∷ [])
parse_u64 (c ∷ d ∷ s) = if c == b'+' then parse_digits 0 (d ∷ s) else parse_digits 0 (c ∷ d ∷ s)

parse_digits-lt :
    (acc : ℕ) (s : Text) {n : ℕ} → acc < 2 ^ 64 → parse_digits acc s ≡ some n → n < 2 ^ 64
unfolding parse_digits
parse_digits-lt acc [] h e = ground arith
parse_digits-lt acc (c ∷ s) {n} h e =
    ground (arith, parse_digits-lt (acc * 10 + (c - b'0')) s {n = n})

-- What is parsed fits into 64 bits.
pub parse_u64-lt : (s : Text) {n : ℕ} → parse_u64 s ≡ some n → n < 2 ^ 64
unfolding parse_u64
parse_u64-lt [] e = cc
parse_u64-lt (c ∷ []) {n} e = ground (arith, parse_digits-lt 0 (c ∷ []) {n = n})
parse_u64-lt (c ∷ d ∷ s) {n} e =
    ground (arith, parse_digits-lt 0 (d ∷ s) {n = n}, parse_digits-lt 0 (c ∷ d ∷ s) {n = n})
