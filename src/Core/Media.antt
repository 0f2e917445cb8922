-- ===== src/Core/Media.antt =====
-- crates/otdel-core/src/media.rs: the accepted formats and their content signatures.
use otdel.Prelude.{ℕ, ◌||◌, Option, none, some, List, [], ◌∷◌, length, ltb, if◌then◌else◌}
use otdel.Prelude.Text.{Text, codes, split, trim, to_ascii_lowercase, text_eq, starts_with}

-- Number of leading bytes that must be inspected before a decision can be made.
abbrev pub signature_prefix_len : ℕ
signature_prefix_len = 12

pub data MediaType : Type 0 where
  pdf png jpeg : MediaType

abbrev pub accepted : List MediaType
accepted = pdf ∷ png ∷ jpeg ∷ []

unfoldable pub as_str : MediaType → Text
as_str pdf = codes "application/pdf"
as_str png = codes "image/png"
as_str jpeg = codes "image/jpeg"

unfoldable pub extension : MediaType → Text
extension pdf = codes "pdf"
extension png = codes "png"
extension jpeg = codes "jpg"

-- `split(';').next().unwrap_or("")`
abbrev first_part : List Text → Text
first_part [] = []
first_part (p ∷ ps) = p

unfoldable pub parse_base : Text → Option MediaType
parse_base base =
    if text_eq base (codes "application/pdf") || text_eq base (codes "application/x-pdf")
    then some pdf
    else if text_eq base (codes "image/png")
    then some png
    else if text_eq base (codes "image/jpeg") || text_eq base (codes "image/jpg")
    then some jpeg
    else none

unfoldable pub parse : Text → Option MediaType
unfolding parse_base text_eq split trim to_ascii_lowercase
parse value = parse_base (to_ascii_lowercase (trim (first_part (split value b';'))))

abbrev pub pdf_signature : List ℕ
pdf_signature = codes "%PDF-"

abbrev pub png_signature : List ℕ
png_signature = 0x89 ∷ b'P' ∷ b'N' ∷ b'G' ∷ 0x0d ∷ 0x0a ∷ 0x1a ∷ 0x0a ∷ []

abbrev pub jpeg_signature : List ℕ
jpeg_signature = 0xff ∷ 0xd8 ∷ 0xff ∷ []

-- The type that the leading bytes show; none for a format that is not accepted, or too few bytes.
unfoldable pub detect : List ℕ → Option MediaType
unfolding starts_with
detect prefix =
    if ltb (length prefix) 4
    then none
    else if starts_with prefix pdf_signature
    then some pdf
    else if starts_with prefix png_signature
    then some png
    else if starts_with prefix jpeg_signature
    then some jpeg
    else none
