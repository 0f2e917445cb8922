-- ===== src/Core/Validate/Headers.antt =====
-- The file name in the `Content-Disposition` header.
use otdel.Prelude.{
  ℕ, ◌+◌, ◌-◌, ◌*◌, ◌/◌, ◌%◌, ◌<◌, ◌≡◌, refl, inl, inr, Bool, true, false, ◌||◌, List, [], ◌∷◌,
  ◌++◌, arith, leb, ◌==◌, if◌then◌else◌, Bool-cases, all, All,
}
use otdel.Prelude.Text.{
  Text, codes, is_ascii_digit, is_ascii_lowercase, is_ascii_uppercase, is_ascii_alphanumeric,
  encode_utf8, bytes,
}
use otdel.Core.Validate.{is_unreserved, upper_hex_digit, encode_bytes, content_disposition_utf8}

hex_value : ℕ → ℕ
hex_value c = if leb c b'9' then c - b'0' else 10 + (c - b'A')

-- What a browser does with the value: `%` and two digits are a byte, any other character is itself.
unfoldable pub percent_decode : Text → List ℕ
unfolding hex_value
percent_decode [] = []
percent_decode (c ∷ []) = c ∷ []
percent_decode (c ∷ d ∷ []) = c ∷ d ∷ []
percent_decode (c ∷ h ∷ l ∷ s) =
    let rest = percent_decode s in
    let after = percent_decode (h ∷ l ∷ s) in
    if c == b'%' then (16 * hex_value h + hex_value l) ∷ rest else c ∷ after

hex_value-upper_hex_digit : (n : ℕ) → n < 16 → hex_value (upper_hex_digit n) ≡ n
unfolding hex_value
hex_value-upper_hex_digit n h = ground arith

percent_decode-plain :
    (c : ℕ) (s : Text) → (c == b'%') ≡ false → percent_decode (c ∷ s) ≡ c ∷ percent_decode s
unfolding percent_decode
percent_decode-plain c [] h = refl
percent_decode-plain c (d ∷ []) h = refl
percent_decode-plain c (d ∷ e ∷ s) h = ground arith

is_unreserved-ne : (b : ℕ) → is_unreserved b ≡ true → (b == b'%') ≡ false
unfolding is_unreserved is_ascii_alphanumeric is_ascii_digit is_ascii_lowercase is_ascii_uppercase
is_unreserved-ne b h = ground arith

is_unreserved-upper_hex_digit : (n : ℕ) → n < 16 → is_unreserved (upper_hex_digit n) ≡ true
unfolding is_unreserved is_ascii_alphanumeric is_ascii_digit is_ascii_lowercase is_ascii_uppercase
is_unreserved-upper_hex_digit n h = ground arith

escape-value :
    (b : ℕ)
    → b < 256
    → 16 * hex_value (upper_hex_digit (b / 16)) + hex_value (upper_hex_digit (b % 16)) ≡ b
escape-value b h = omega (
  arith,
  hex_value-upper_hex_digit (b / 16) (omega arith),
  hex_value-upper_hex_digit (b % 16) (omega arith),
)

percent_decode-encode_bytes :
    (bs : List ℕ) → All (λ b. b < 256) bs → percent_decode (encode_bytes bs) ≡ bs
unfolding percent_decode encode_bytes
percent_decode-encode_bytes [] h = refl
percent_decode-encode_bytes (b ∷ bs) (small, h) = elim (Bool-cases (is_unreserved b)) [
  | inl u ↦ rw (
    u,
    percent_decode-plain b (encode_bytes bs) (is_unreserved-ne b u),
    percent_decode-encode_bytes bs h,
  )
  | inr u ↦ rw (u, escape-value b small, percent_decode-encode_bytes bs h)
]

is_header_char : ℕ → Bool
is_header_char c = is_unreserved c || c == b'%'

all-encode_bytes :
    (bs : List ℕ) → All (λ b. b < 256) bs → all (encode_bytes bs) is_header_char ≡ true
unfolding encode_bytes is_header_char
all-encode_bytes [] h = refl
all-encode_bytes (b ∷ bs) (small, h) = ground (
  arith,
  all-encode_bytes bs h,
  is_unreserved-upper_hex_digit (b / 16) (omega arith),
  is_unreserved-upper_hex_digit (b % 16) (omega arith),
)

encode_utf8-IsByte : (c : ℕ) → c < 0x110000 → All (λ b. b < 256) (encode_utf8 c)
unfolding encode_utf8
encode_utf8-IsByte c h = ground arith

All-append :
    (xs ys : List ℕ) → All (λ b. b < 256) xs → All (λ b. b < 256) ys → All (λ b. b < 256) (xs ++ ys)
All-append [] ys h g = g
All-append (x ∷ xs) ys (small, h) g = (small, All-append xs ys h g)

bytes-IsByte : (name : Text) → All (λ c. c < 0x110000) name → All (λ b. b < 256) (bytes name)
unfolding bytes
bytes-IsByte [] h = h
bytes-IsByte (c ∷ s) (small, h) =
    All-append (encode_utf8 c) (bytes s) (encode_utf8-IsByte c small) (bytes-IsByte s h)

-- For a name of Unicode code points the value is `UTF-8''` and then a text of unreserved
-- characters and `%` only, which percent-decodes to the bytes of the name in UTF-8.
pub content_disposition_utf8_roundtrip :
    (name : Text)
    → All (λ c. c < 0x110000) name
    → (value : Text) × (content_disposition_utf8 name ≡ codes "UTF-8''" ++ value)
      × (all value (λ c. is_unreserved c || c == b'%') ≡ true)
      × (percent_decode value ≡ bytes name)
unfolding content_disposition_utf8 is_header_char
content_disposition_utf8_roundtrip name h =
    let small = bytes-IsByte name h in
    (
      encode_bytes (bytes name),
      refl,
      all-encode_bytes (bytes name) small,
      percent_decode-encode_bytes (bytes name) small,
    )
