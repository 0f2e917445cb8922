-- ===== src/Storage/Uuid.antt =====
-- The uuid crate, which is not part of the repository: a UUID is its 128-bit number, and the two
-- conversions to and from text that the program calls are parameters with their documented laws.
use otdel.Prelude.{ℕ, ◌^◌, ◌<◌, ◌≡◌, Option, some}
use otdel.Prelude.Text.{Text, Lacks}

abbrev pub Uuid : Type 0
Uuid = ℕ

abbrev pub uuid_limit : ℕ
uuid_limit = 2 ^ 128

-- `Display` and `Uuid::parse_str`.
pub record UuidText : Type 0 where
  pub format : Uuid → Text
  pub parse_str : Text → Option Uuid

-- What is documented: the displayed form is hexadecimal digits and hyphens, and parses back.
pub record IsUuidText (U : UuidText) : Type 0 where
  pub parse_str-format : (u : Uuid) → u < uuid_limit → U.parse_str (U.format u) ≡ some u
  pub format-Lacks : (u : Uuid) → Lacks b'/' (U.format u)
