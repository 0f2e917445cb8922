-- ===== src/Storage/Key.antt =====
-- crates/otdel-storage/src/key.rs: object keys, the only thing that decides where bytes are written.
pub mod Shape
pub mod Paths
use otdel.Prelude.{
  ℕ, zero, suc, Bool, true, false, ◌&&◌, ◌||◌, not, Option, none, some, List, [], ◌∷◌, ◌++◌, ◌==◌,
  if◌then◌else◌, take, all, Result, ok, err, ◌>>=◌, ◌>>◌, ok_or,
}
use otdel.Prelude.Text.{
  Text, codes, text_eq, strip_prefix, split, in_range, is_ascii_digit, bytes, len,
}
use otdel.Storage.Uuid.{Uuid, UuidText}
use otdel.Storage.StorageError.{StorageError, invalid_key}

pub record ObjectNamespace : Type 0 where
  pub bureau_id : Uuid
  pub partner_id : Uuid

-- A validated storage key.
pub record ObjectKey : Type 0 where
  pub raw : Text

unfoldable pub is_lower_hex : ℕ → Bool
unfolding is_ascii_digit
is_lower_hex byte = is_ascii_digit byte || in_range b'a' b'f' byte

unfoldable pub is_sha256_hex : Text → Bool
unfolding is_lower_hex len
is_sha256_hex value = len value == 64 && all (bytes value) is_lower_hex

abbrev pub refuse_unless : Bool → StorageError → Result (Unit {0}) StorageError
refuse_unless true e = ok tt
refuse_unless false e = err e

abbrev pub bureau_prefix : Text
bureau_prefix = codes "bureau-"

abbrev pub partner_prefix : Text
partner_prefix = codes "partner-"

-- `digest()`: the last segment. A text has at least one.
abbrev last_part : List Text → Text
last_part [] = []
last_part (p ∷ []) = p
last_part (p ∷ q ∷ ps) = last_part (q ∷ ps)

unfoldable pub digest : ObjectKey → Text
digest key = last_part (split key.raw b'/')

-- `parts.next().and_then(|part| part.strip_prefix(prefix))…` at the first and at the second part.
abbrev nth_part : List Text → ℕ → Option Text
nth_part [] n = none
nth_part (p ∷ ps) zero = some p
nth_part (p ∷ ps) (suc n) = nth_part ps n

module _ (U : UuidText) where
  -- The checks of `parse` on a key of exactly four segments.
  unfoldable pub check_segments : Text → Text → Text → Text → Result (Unit {0}) StorageError
  check_segments first second shard name = do
    bureau ←
        ok_or (strip_prefix first bureau_prefix)
          (invalid_key "first segment must be `bureau-<uuid>`")
    _ ← ok_or (U.parse_str bureau) (invalid_key "bureau segment is not a UUID")
    partner ←
        ok_or (strip_prefix second partner_prefix)
          (invalid_key "second segment must be `partner-<uuid>`")
    _ ← ok_or (U.parse_str partner) (invalid_key "partner segment is not a UUID")
    refuse_unless (len shard == 2 && all (bytes shard) is_lower_hex)
        (invalid_key "third segment must be two lowercase hex characters")
    refuse_unless (is_sha256_hex name)
        (invalid_key "fourth segment must be a 64-character lowercase hex digest")
    refuse_unless (text_eq shard (take 2 name))
        (invalid_key "shard segment does not match the digest")

  parse_segments : List Text → Result (Unit {0}) StorageError
  unfolding check_segments
  parse_segments (first ∷ second ∷ shard ∷ name ∷ []) = check_segments first second shard name
  parse_segments _ = err (invalid_key "key must have exactly four segments")

  unfoldable pub parse : Text → Result ObjectKey StorageError
  unfolding parse_segments
  parse raw = parse_segments (split raw b'/') >> ok (record { raw = raw })

  -- bureau-<uuid>/partner-<uuid>/<first two hex characters>/<sha256>
  unfoldable pub key_text : ObjectNamespace → Text → Text
  key_text ns sha256_hex =
      (bureau_prefix ++ U.format ns.bureau_id)
      ++ (b'/'
          ∷ ((partner_prefix ++ U.format ns.partner_id)
              ++ (b'/' ∷ (take 2 sha256_hex ++ (b'/' ∷ sha256_hex)))))

  unfoldable pub key_for_digest : ObjectNamespace → Text → Result ObjectKey StorageError
  unfolding parse key_text
  key_for_digest ns sha256_hex =
      if not (is_sha256_hex sha256_hex)
      then err (invalid_key "content digest is not a 64-character lowercase hex string")
      else parse (key_text ns sha256_hex)

  -- The id that a part names behind a prefix.
  id_part : Text → Option Text → Option Uuid
  id_part prefix none = none
  id_part prefix (some part) = elim (strip_prefix part prefix) [
    | none ↦ none
    | some value ↦ U.parse_str value
  ]

  unfoldable pub namespace : ObjectKey → Result ObjectNamespace StorageError
  unfolding id_part
  namespace key = do
    let parts = split key.raw b'/'
    bureau ← ok_or (id_part bureau_prefix (nth_part parts 0)) (invalid_key "missing bureau segment")
    partner ←
        ok_or (id_part partner_prefix (nth_part parts 1)) (invalid_key "missing partner segment")
    ok (record { bureau_id = bureau; partner_id = partner })

-- `std::path::Component` of a relative or absolute path.
pub data Component : Type 0 where
  root_dir cur_dir parent_dir : Component
  normal : Text → Component

abbrev pub FilePath : Type 0
FilePath = List Text

-- Behind the first part, empty parts and `.` are skipped.
later_components : List Text → List Component
later_components [] = []
later_components (p ∷ ps) =
    let rest = later_components ps in
    if text_eq p [] || text_eq p (codes ".")
    then rest
    else if text_eq p (codes "..")
    then parent_dir ∷ rest
    else normal p ∷ rest

first_components : List Text → List Component
unfolding later_components
first_components [] = []
first_components (p ∷ ps) =
    if text_eq p (codes ".") then cur_dir ∷ later_components ps else later_components (p ∷ ps)

-- `Path::new(path).components()`
unfoldable pub components : Text → List Component
unfolding first_components
components [] = []
components (c ∷ s) =
    if c == b'/'
    then root_dir ∷ later_components (split s b'/')
    else first_components (split (c ∷ s) b'/')

abbrev single_normal : List Component → Option Text
single_normal (normal part ∷ []) = some part
single_normal _ = none

-- The loop of `resolve_within`.
resolve_segments : FilePath → List Text → Result FilePath StorageError
resolve_segments path [] = ok path
resolve_segments path (segment ∷ segments) = elim (single_normal (components segment)) [
  | none ↦ err (invalid_key "key segment is not a plain path component")
  | some part ↦ resolve_segments (path ++ part ∷ []) segments
]

-- `path.starts_with(root)`, component by component.
unfoldable pub path_starts_with : FilePath → FilePath → Bool
path_starts_with path [] = true
path_starts_with [] (r ∷ root) = false
path_starts_with (p ∷ path) (r ∷ root) = text_eq p r && path_starts_with path root

unfoldable pub resolve_within : ObjectKey → FilePath → Result FilePath StorageError
unfolding resolve_segments path_starts_with
resolve_within key root = do
  path ← resolve_segments root (split key.raw b'/')
  refuse_unless (path_starts_with path root) (invalid_key "resolved path escapes the storage root")
  ok path
