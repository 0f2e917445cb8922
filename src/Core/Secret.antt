-- ===== src/Core/Secret.antt =====
-- crates/otdel-core/src/secret.rs: tokens and placeholders. Random bytes, SHA-256, Argon2 and
-- base64 belong to other crates: a token is what the generator gave, the digest is a parameter.
use otdel.Prelude.{
  ℕ, ◌≡◌, refl, Bool, true, false, ◌&&◌, not, Option, List, [], ◌∷◌, arith, ltb, ◌==◌,
  if◌then◌else◌, length, any, is_empty, Result, err, ok_or, lit, num,
}
use otdel.Prelude.Text.{Text, codes, contains, to_ascii_lowercase, trim, bytes}
use otdel.Core.AppError
use otdel.Storage.Fs.{hex_lower}
use otdel.Core.AppError.{AppError}

abbrev pub password_min_chars : ℕ
password_min_chars = 12

-- `ct_eq` compares byte by byte and combines the results.
ct_eq : List ℕ → List ℕ → Bool
ct_eq [] [] = true
ct_eq (a ∷ as') (b ∷ bs) = let rest = ct_eq as' bs in rest && (a == b)
ct_eq _ _ = false

unfoldable pub tokens_match : Text → Text → Bool
unfolding ct_eq
tokens_match expected provided =
    if not (length (bytes expected) == length (bytes provided))
    then false
    else ct_eq (bytes expected) (bytes provided)

abbrev markers : List Text
markers =
    codes "changeme"
    ∷ codes "change-me"
    ∷ codes "placeholder"
    ∷ codes "example"
    ∷ codes "your-"
    ∷ codes "secret-here"
    ∷ codes "todo"
    ∷ codes "xxxxx"
    ∷ []

unfoldable pub looks_like_placeholder : Text → Bool
looks_like_placeholder value =
    let normalised = to_ascii_lowercase (trim value) in
    if is_empty normalised then true else any markers (λ marker. contains normalised marker)

-- Argon2 and its salts: `hash` stands for `Argon2::hash_password` with a fresh salt.
unfoldable pub hash_password : (Text → Option Text) → Text → Result Text AppError
hash_password hash password =
    if ltb (length password) password_min_chars
    then err (
        AppError.validation
          (lit "password must be at least " ∷ num password_min_chars ∷ lit " characters" ∷ []))
    else ok_or (hash password) (AppError.internal_error (lit "could not hash the password" ∷ []))

-- The fingerprint that the database stores instead of the token.
unfoldable pub token_fingerprint : (List ℕ → List ℕ) → Text → Text
token_fingerprint sha256 token = hex_lower (sha256 (bytes token))

ct_eq-eq : (a b : List ℕ) → ct_eq a b ≡ true → a ≡ b
unfolding ct_eq
ct_eq-eq [] [] h = refl
ct_eq-eq [] (y ∷ b) h = absurd (ground arith)
ct_eq-eq (x ∷ a) [] h = absurd (ground arith)
ct_eq-eq (x ∷ a) (y ∷ b) h = ground (arith, ct_eq-eq a b)

-- The comparison that takes the same time for all tokens of one length is equality of the bytes.
pub tokens_match-eq :
    (expected provided : Text)
    → tokens_match expected provided ≡ true
    → bytes expected ≡ bytes provided
unfolding tokens_match
tokens_match-eq expected provided h = ct_eq-eq (bytes expected) (bytes provided) (ground arith)
