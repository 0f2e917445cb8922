-- ===== src/Core/Validate.antt =====
-- crates/otdel-core/src/validate.rs: partner fields are validated; file names are normalised for
-- display only. A text is its list of code points, so `chars().count()` is its length.
pub mod Names
pub mod Headers
use otdel.Prelude.{
  ℕ, ◌+◌, ◌-◌, ◌/◌, ◌%◌, Bool, ◌&&◌, ◌||◌, not, Option, none, some, List, [], ◌∷◌, ◌++◌, map, ltb,
  ◌==◌, if◌then◌else◌, length, take, all, any, is_empty, Result, ok, err, lit, num,
}
use otdel.Prelude.Text.{Text, codes, is_control, is_ascii_alphanumeric, trim_matches, trim, bytes}
use mathlib.Core.List.{reverse}
use otdel.Core.AppError
use otdel.Core.AppError.{AppError}
use otdel.Core.Media
use otdel.Core.Media.{MediaType}

abbrev pub partner_name_max_chars : ℕ
partner_name_max_chars = 200

abbrev pub partner_note_max_chars : ℕ
partner_note_max_chars = 10000

abbrev pub filename_max_chars : ℕ
filename_max_chars = 200

abbrev pub is_forbidden_control : ℕ → Bool
is_forbidden_control = is_control

unfoldable pub partner_name : Text → Result Text AppError
partner_name raw =
    let trimmed = trim raw in
    if is_empty trimmed
    then err (AppError.validation (lit "partner name must not be empty" ∷ []))
    else if ltb partner_name_max_chars (length trimmed)
    then err (
        AppError.validation (
          lit "partner name must be at most "
          ∷ num partner_name_max_chars
          ∷ lit " characters, got "
          ∷ num (length trimmed)
          ∷ []))
    else if any trimmed is_forbidden_control
    then err (AppError.validation (lit "partner name must not contain control characters" ∷ []))
    else ok trimmed

note_control : ℕ → Bool
note_control c = is_forbidden_control c && not (c == 0x0a) && not (c == 0x09)

unfoldable pub partner_note : Option Text → Result (Option Text) AppError
unfolding note_control
partner_note none = ok none
partner_note (some raw) =
    let trimmed = trim raw in
    if is_empty trimmed
    then ok none
    else if ltb partner_note_max_chars (length trimmed)
    then err (
        AppError.validation (
          lit "partner note must be at most "
          ∷ num partner_note_max_chars
          ∷ lit " characters, got "
          ∷ num (length trimmed)
          ∷ []))
    else if any trimmed note_control
    then err (AppError.validation (lit "partner note must not contain control characters" ∷ []))
    else ok (some trimmed)

-- `rsplit(['/', '\\']).next()`: what follows the last separator.
abbrev pub is_separator : ℕ → Bool
is_separator c = c == b'/' || c == 0x5c

unfoldable pub last_segment : Text → Text
last_segment [] = []
last_segment (c ∷ s) = let rest = last_segment s in if any (c ∷ s) is_separator then rest else c ∷ s

abbrev pub blank_control : ℕ → ℕ
blank_control c = if is_forbidden_control c then 0x20 else c

unfoldable pub display_filename : Text → MediaType → Text
unfolding last_segment
display_filename raw media_type =
    let cleaned = map blank_control (last_segment raw) in
    let cleaned' = trim (trim_matches (λ c. c == b'.') (trim cleaned)) in
    let truncated = trim (take filename_max_chars cleaned') in
    if is_empty truncated then codes "upload." ++ Media.extension media_type else truncated

abbrev pub is_plain_ascii : ℕ → Bool
is_plain_ascii c =
    is_ascii_alphanumeric c
    || c == b'.'
    || c == b'-'
    || c == b'_'
    || c == 0x20
    || c == b'('
    || c == b')'
    || c == b'+'

unfoldable pub content_disposition_ascii_fallback : Text → MediaType → Text
content_disposition_ascii_fallback name media_type =
    let ascii = trim (map (λ c. if is_plain_ascii c then c else b'_') name) in
    if is_empty ascii || all ascii (λ c. c == b'_' || c == 0x20)
    then codes "original." ++ Media.extension media_type
    else ascii

-- The bytes of RFC 5987 that stand for themselves.
unfoldable pub is_unreserved : ℕ → Bool
is_unreserved c = is_ascii_alphanumeric c || c == b'-' || c == b'.' || c == b'_' || c == b'~'

abbrev pub upper_hex_digit : ℕ → ℕ
upper_hex_digit n = if ltb n 10 then b'0' + n else b'A' + (n - 10)

unfoldable pub encode_bytes : List ℕ → Text
unfolding is_unreserved
encode_bytes [] = []
encode_bytes (byte ∷ rest) =
    let out = encode_bytes rest in
    if is_unreserved byte
    then byte ∷ out
    else b'%' ∷ upper_hex_digit (byte / 16) ∷ upper_hex_digit (byte % 16) ∷ out

unfoldable pub content_disposition_utf8 : Text → Text
unfolding encode_bytes
content_disposition_utf8 name = codes "UTF-8''" ++ encode_bytes (bytes name)
