-- ===== src/Api/Cookie.antt =====
-- crates/otdel-api/src/cookie.rs: the one cookie of the application.
use otdel.Prelude.{
  ℕ, ◌≡◌, refl, sym, ap, ◌∙◌, ◌≢◌, Bool, Option, none, some, List, [], ◌∷◌, ◌++◌, arith,
  if◌then◌else◌, ==_refl,
}
use otdel.Prelude.Text.{
  Text, codes, text_eq, text_eq_refl, split, split_once, Lacks, split_of_Lacks, split-append,
  is_whitespace, trim_start_matches, trim_matches, trim, decimal,
}

unfoldable pub session_cookie : Text → Text → ℕ → Bool → Text
unfolding decimal
session_cookie name token max_age_seconds secure =
    let cookie =
      name
      ++ (b'=' ∷ token)
      ++ codes "; Path=/; HttpOnly; SameSite=Strict; Max-Age="
      ++ decimal max_age_seconds in
    if secure then cookie ++ codes "; Secure" else cookie

unfoldable pub cleared_cookie : Text → Bool → Text
cleared_cookie name secure =
    let cookie = name ++ codes "=; Path=/; HttpOnly; SameSite=Strict; Max-Age=0" in
    if secure then cookie ++ codes "; Secure" else cookie

-- `find_map` over the pairs of the header.
read_pairs : List Text → Text → Option Text
unfolding split_once trim text_eq
read_pairs [] name = none
read_pairs (pair ∷ pairs) name =
    let rest = read_pairs pairs name in
    elim (split_once pair b'=') [
      | none ↦ rest
      | some (key, value) ↦ if text_eq (trim key) name then some (trim value) else rest
    ]

unfoldable pub read_cookie : Text → Text → Option Text
unfolding read_pairs split
read_cookie header name = read_pairs (split header b';') name

split_once-append :
    (p s : Text) (sep : ℕ) → Lacks sep p → split_once (p ++ (sep ∷ s)) sep ≡ some (p, s)
unfolding split_once
split_once-append [] s sep h = ground (arith, ==_refl sep)
split_once-append (c ∷ p) s sep h = ground (arith, split_once-append p s sep)

trim-space : (s : Text) → trim (0x20 ∷ s) ≡ trim s
unfolding trim trim_matches trim_start_matches is_whitespace
trim-space s = refl

Lacks-append : (sep : ℕ) (s t : Text) → Lacks sep s → Lacks sep t → Lacks sep (s ++ t)
Lacks-append sep [] t h g = g
Lacks-append sep (c ∷ s) t (p, h) g = (p, Lacks-append sep s t h g)

read_pairs-match :
    (key value : Text) (pairs : List Text) (name : Text)
    → Lacks b'=' key
    → trim key ≡ name
    → read_pairs ((key ++ (b'=' ∷ value)) ∷ pairs) name ≡ some (trim value)
unfolding read_pairs
read_pairs-match key value pairs name h e =
    ground (arith, split_once-append key value b'=' h, text_eq_refl name)

read_pairs-skip :
    (pair : Text) (pairs : List Text) (name : Text)
    → read_pairs (pair ∷ []) name ≡ none
    → read_pairs (pair ∷ pairs) name ≡ read_pairs pairs name
unfolding read_pairs
read_pairs-skip pair pairs name h = ground arith

pub read_cookie-nil : (name : Text) → read_cookie [] name ≡ none
unfolding read_cookie read_pairs split split_once
read_cookie-nil name = refl

-- The value that a browser sends back is read, whatever the cookie before it, unless that has the
-- same name. Name and value hold no separators and are trimmed, as tokens are.
pub read_cookie_sent :
    (before name token : Text)
    → Lacks b';' before
    → read_cookie before name ≡ none
    → Lacks b'=' name
    → Lacks b';' name
    → Lacks b';' token
    → trim name ≡ name
    → trim token ≡ token
    → (read_cookie (name ++ (b'=' ∷ token)) name ≡ some token)
      × (read_cookie (before ++ (b';' ∷ 0x20 ∷ (name ++ (b'=' ∷ token)))) name ≡ some token)
unfolding read_cookie
read_cookie_sent before name token one other plain whole value name_trimmed token_trimmed =
    let pair = name ++ (b'=' ∷ token) in
    let whole_pair : Lacks b';' pair =
      Lacks-append b';' name (b'=' ∷ token) whole ((ground arith), value) in
    let space_ne : 0x20 ≢ b'=' = ground arith in
    let space_ne' : 0x20 ≢ b';' = ground arith in
    let alone : read_pairs (before ∷ []) name ≡ none =
      ap (λ ps. read_pairs ps name) (sym (split_of_Lacks before b';' one)) ∙ other in
    let pairs =
      split-append before (0x20 ∷ pair) b';' one
      ∙ ap (λ ps. before ∷ ps) (split_of_Lacks (0x20 ∷ pair) b';' (space_ne', whole_pair)) in
    (
      ap (λ ps. read_pairs ps name) (split_of_Lacks pair b';' whole_pair)
          ∙ read_pairs-match name token [] name plain name_trimmed
          ∙ ap some token_trimmed,
      ap (λ ps. read_pairs ps name) pairs
          ∙ read_pairs-skip before ((0x20 ∷ pair) ∷ []) name alone
          ∙ read_pairs-match (0x20 ∷ name) token [] name (space_ne, plain)
              (trim-space name ∙ name_trimmed)
          ∙ ap some token_trimmed,
    )
