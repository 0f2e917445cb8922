-- ===== src/Tests/Keys.antt =====
-- Object keys on concrete digests.
use otdel.Prelude.{◌≡◌, refl, true, [], ◌∷◌, ◌++◌, arith, length, All, ok, err}
use otdel.Prelude.Text.{Text, codes, text_eq, strip_prefix, split, len}
use otdel.Storage.StorageError.{invalid_key}
use otdel.Storage.Key.{
  ObjectNamespace, ObjectKey, is_lower_hex, is_sha256_hex, digest, parse, key_text, key_for_digest,
  namespace, resolve_within,
}
use otdel.Storage.Key.Shape.{key_for_digest_roundtrip}
use otdel.Storage.Key.Paths.{IsPlain, resolve_within-parse}
use otdel.Tests.Uuids.{uuids, uuids-IsUuidText}

-- The digest of the source's own tests.
abbrev pub sha : Text
sha = codes "9f86d081884c7d659a2feaa0c55ad015a3bf4f1b2b0b822cd15d6c15b0f00a08"

abbrev pub bureau_one : ObjectNamespace
bureau_one = record { bureau_id = 1; partner_id = 2 }

sha-hex : is_sha256_hex sha ≡ true
unfolding is_sha256_hex
sha-hex = refl

abbrev raw : Text
unfolding uuids key_text
raw = key_text uuids bureau_one sha

raw_parses : parse uuids raw ≡ ok (record { raw = raw })
unfolding parse uuids raw split strip_prefix text_eq is_sha256_hex is_lower_hex len
raw_parses = refl

traversal :
    parse uuids (codes "../../../etc/passwd")
    ≡ err (invalid_key "key must have exactly four segments")
unfolding parse split strip_prefix
traversal = refl

key_for_digest_roundtrip_example :
    (key : ObjectKey) × (key_for_digest uuids bureau_one sha ≡ ok key)
    × (namespace uuids key ≡ ok bureau_one)
    × (digest key ≡ sha)
    × (parse uuids key.raw ≡ ok key)
key_for_digest_roundtrip_example =
    key_for_digest_roundtrip uuids uuids-IsUuidText bureau_one sha (omega arith) (omega arith)
      sha-hex

resolve_within-parse_example :
    (resolve_within (record { raw = raw }) (codes "srv" ∷ [])
      ≡ ok ((codes "srv" ∷ []) ++ split raw b'/'))
    × (length (split raw b'/') ≡ 4)
    × All IsPlain (split raw b'/')
resolve_within-parse_example = resolve_within-parse uuids raw (codes "srv" ∷ []) raw_parses
