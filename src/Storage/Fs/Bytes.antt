-- ===== src/Storage/Fs/Bytes.antt =====
-- A SHA-256 digest in hexadecimal is a valid content digest.
use otdel.Prelude.{ℕ, ◌*◌, ◌<◌, ◌≡◌, refl, true, List, [], ◌∷◌, arith, length, all, All}
use otdel.Prelude.Text.{bytes}
use otdel.Storage.Key.{is_lower_hex, is_sha256_hex}
use otdel.Storage.Key.Shape.{is_sha256_hex_of_hex}
use otdel.Storage.Fs.{hex_lower}

-- A digest of the sha2 crate: 32 bytes.
abbrev pub IsDigest : List ℕ → Type 0
IsDigest bytes = (length bytes ≡ 32) × All (λ b. b < 256) bytes

hex_lower-length : (bytes : List ℕ) → length (hex_lower bytes) ≡ 2 * length bytes
unfolding hex_lower
hex_lower-length [] = refl
hex_lower-length (b ∷ bytes) = omega (arith, hex_lower-length bytes)

hex_lower-hex :
    (bytes : List ℕ) → All (λ b. b < 256) bytes → all (hex_lower bytes) is_lower_hex ≡ true
unfolding hex_lower is_lower_hex
hex_lower-hex [] h = refl
hex_lower-hex (b ∷ bytes) (h, hs) = ground (arith, hex_lower-hex bytes hs)

pub hex_lower-is_sha256_hex :
    (bytes : List ℕ) → IsDigest bytes → is_sha256_hex (hex_lower bytes) ≡ true
hex_lower-is_sha256_hex bytes (l, h) =
    is_sha256_hex_of_hex (hex_lower bytes) (omega (arith, hex_lower-length bytes))
      (hex_lower-hex bytes h)
