-- ===== src/Tests/Names.antt =====
-- Names of states, partners and files on concrete texts.
use otdel.Prelude.{
  ◌≤◌, ◌≡◌, refl, true, false, ◌||◌, not, none, some, ◌++◌, arith, ◌==◌, length, all, any, ok,
}
use otdel.Prelude.Text.{
  Text, codes, text_eq, split, split_once, is_control, is_whitespace, trim_start_matches,
  trim_end_matches, trim_matches, trim, bytes,
}
use otdel.Core.Media.{pdf}
use otdel.Core.Validate.{
  partner_name, is_forbidden_control, is_separator, display_filename, last_segment,
  content_disposition_utf8, is_unreserved,
}
use otdel.Core.Validate.Names.{partner_name_sound, display_filename_safe}
use otdel.Core.Validate.Headers.{percent_decode, content_disposition_utf8_roundtrip}
use otdel.Api.Cookie.{read_cookie, read_cookie_sent}

named : partner_name (codes "  BASIS ") ≡ ok (codes "BASIS")
unfolding partner_name trim trim_matches trim_start_matches trim_end_matches is_whitespace
    is_control
named = refl

partner_name_sound_example :
    (1 ≤ length (codes "BASIS"))
    × (length (codes "BASIS") ≤ 200)
    × (any (codes "BASIS") is_forbidden_control ≡ false)
    × (partner_name (codes "BASIS") ≡ ok (codes "BASIS"))
partner_name_sound_example = partner_name_sound (codes "  BASIS ") named

stripped : display_filename (codes "../../etc/passwd") pdf ≡ codes "passwd"
unfolding display_filename last_segment trim trim_matches trim_start_matches trim_end_matches
    is_whitespace is_control
stripped = refl

-- Dots and spaces in turn are trimmed once only.
dots_stay : display_filename (codes ". .. .") pdf ≡ codes ".."
unfolding display_filename last_segment trim trim_matches trim_start_matches trim_end_matches
    is_whitespace is_control
dots_stay = refl

display_filename_safe_example :
    (1 ≤ length (display_filename (codes "a/b.pdf") pdf))
    × (length (display_filename (codes "a/b.pdf") pdf) ≤ 200)
    × (all (display_filename (codes "a/b.pdf") pdf) (λ c. not (is_control c || is_separator c))
        ≡ true)
display_filename_safe_example = display_filename_safe (codes "a/b.pdf") pdf

content_disposition_utf8_roundtrip_example :
    (value : Text) × (content_disposition_utf8 (codes "a b.pdf") ≡ codes "UTF-8''" ++ value)
    × (all value (λ c. is_unreserved c || c == b'%') ≡ true)
    × (percent_decode value ≡ bytes (codes "a b.pdf"))
content_disposition_utf8_roundtrip_example = content_disposition_utf8_roundtrip (codes "a b.pdf") (
  ground arith,
  (
    ground arith,
    (ground arith, (ground arith, (ground arith, (ground arith, (ground arith, tt))))),
  ),
)

other_cookie : read_cookie (codes "a=1") (codes "s") ≡ none
unfolding read_cookie trim trim_matches trim_start_matches trim_end_matches is_whitespace text_eq
    split split_once
other_cookie = refl

trimmed : (trim (codes "s") ≡ codes "s") × (trim (codes "t") ≡ codes "t")
unfolding trim trim_matches trim_start_matches trim_end_matches is_whitespace
trimmed = (refl, refl)

read_cookie_sent_example :
    (read_cookie (codes "s=t") (codes "s") ≡ some (codes "t"))
    × (read_cookie (codes "a=1; s=t") (codes "s") ≡ some (codes "t"))
read_cookie_sent_example =
    read_cookie_sent (codes "a=1") (codes "s") (codes "t")
      (ground arith, (ground arith, (ground arith, tt))) other_cookie (ground arith, tt)
      (ground arith, tt) (ground arith, tt) trimmed.0 trimmed.1
