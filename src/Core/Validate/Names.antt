-- ===== src/Core/Validate/Names.antt =====
-- The names that validation lets through: partner names and display names of files.
use otdel.Prelude.{
  ℕ, ◌≤◌, ◌≡◌, refl, Bool, true, false, ◌||◌, not, [], ◌∷◌, ◌++◌, map, arith, ltb, ◌==◌,
  if◌then◌else◌, length, take, all, any, is_empty, length-take, all-take, ok,
}
use otdel.Prelude.Text.{
  Text, codes, is_control, is_whitespace, trim_matches, trim, all-trim_matches, length-trim_matches,
  trim_matches_idem,
}
use otdel.Core.Media
use otdel.Core.Media.{MediaType, pdf, png, jpeg}
use otdel.Core.Validate.{
  partner_name_max_chars, is_forbidden_control, partner_name, is_separator, last_segment,
  blank_control, display_filename,
}

is_empty-length : (s : Text) → is_empty s ≡ false → 1 ≤ length s
is_empty-length [] h = ground arith
is_empty-length (c ∷ s) h = omega arith

trim_idem : (s : Text) → trim (trim s) ≡ trim s
unfolding trim
trim_idem s = trim_matches_idem is_whitespace s

partner_name-checks :
    (raw : Text) {out : Text}
    → partner_name raw ≡ ok out
    → (out ≡ trim raw)
      × (is_empty (trim raw) ≡ false)
      × (ltb partner_name_max_chars (length (trim raw)) ≡ false)
      × (any (trim raw) is_forbidden_control ≡ false)
unfolding partner_name
partner_name-checks raw {out} h = ground arith

-- A partner name that is accepted has between 1 and 200 characters, none of them a control
-- character, and is accepted again as it is.
pub partner_name_sound :
    (raw : Text) {out : Text}
    → partner_name raw ≡ ok out
    → (1 ≤ length out)
      × (length out ≤ 200)
      × (any out is_forbidden_control ≡ false)
      × (partner_name out ≡ ok out)
unfolding partner_name
partner_name_sound raw {out} h =
    let (e, nonempty, short, plain) = partner_name-checks raw h in
    ground (arith, trim_idem raw, is_empty-length (trim raw))

is_visible : ℕ → Bool
is_visible c = not (is_control c || is_separator c)

any-false : (q : ℕ → Bool) (s : Text) → any s q ≡ false → all s (λ c. not (q c)) ≡ true
any-false q [] h = refl
any-false q (c ∷ s) h = ground (arith, any-false q s)

all-last_segment : (s : Text) → all (last_segment s) (λ c. not (is_separator c)) ≡ true
unfolding last_segment
all-last_segment [] = refl
all-last_segment (c ∷ s) = ground (arith, all-last_segment s, any-false is_separator (c ∷ s))

all-blank_control :
    (s : Text)
    → all s (λ c. not (is_separator c)) ≡ true
    → all (map blank_control s) is_visible ≡ true
unfolding is_visible is_control
all-blank_control [] h = refl
all-blank_control (c ∷ s) h = ground (arith, all-blank_control s)

abbrev is_dot : ℕ → Bool
is_dot c = c == b'.'

-- What `display_filename` makes of the trimmed and truncated text.
upload_name-safe :
    (t : Text) (media_type : MediaType)
    → all t is_visible ≡ true
    → length t ≤ 200
    → (1 ≤ length (if is_empty t then codes "upload." ++ Media.extension media_type else t))
      × (length (if is_empty t then codes "upload." ++ Media.extension media_type else t) ≤ 200)
      × (all (if is_empty t then codes "upload." ++ Media.extension media_type else t) is_visible
          ≡ true)
unfolding Media.extension is_visible is_control
upload_name-safe [] pdf v h = (omega arith, omega arith, refl)
upload_name-safe [] png v h = (omega arith, omega arith, refl)
upload_name-safe [] jpeg v h = (omega arith, omega arith, refl)
upload_name-safe (c ∷ t) media_type v h = (omega arith, h, v)

-- A display name is not empty, has at most 200 characters, and holds neither a separator of
-- either kind nor a control character, whatever name the client sent.
pub display_filename_safe :
    (raw : Text) (media_type : MediaType)
    → (1 ≤ length (display_filename raw media_type))
      × (length (display_filename raw media_type) ≤ 200)
      × (all (display_filename raw media_type) (λ c. not (is_control c || is_separator c)) ≡ true)
unfolding display_filename is_visible trim
display_filename_safe raw media_type =
    let s0 = map blank_control (last_segment raw) in
    let v0 = all-blank_control (last_segment raw) (all-last_segment raw) in
    let s1 = trim (trim_matches is_dot (trim s0)) in
    let v1 = all-trim_matches is_whitespace is_visible (trim_matches is_dot (trim s0)) (
      all-trim_matches is_dot is_visible (trim s0)
        (all-trim_matches is_whitespace is_visible s0 v0)) in
    let v2 =
      all-trim_matches is_whitespace is_visible (take 200 s1) (all-take is_visible 200 s1 v1) in
    upload_name-safe (trim (take 200 s1)) media_type v2
      (omega (arith, length-trim_matches is_whitespace (take 200 s1), length-take 200 s1))
