-- ===== src/Storage/Key/Shape.antt =====
-- Which texts are keys, and what a key says of the bureau, the partner and the content.
use otdel.Prelude.{
  ℕ, ◌<◌, ◌≡◌, refl, ◌≢◌, true, some, List, [], ◌∷◌, ◌++◌, arith, length, take, all, length-take,
  all-take, ok, >>=-passed,
}
use otdel.Prelude.Text.{
  Text, text_eq, text_eq_iff, text_eq_refl, strip_prefix, strip_prefix-append, strip_prefix-eq_some,
  split, Lacks, split_of_Lacks, split-append, encode_utf8, bytes, len,
}
use otdel.Storage.Uuid.{Uuid, uuid_limit, UuidText, IsUuidText}
use otdel.Storage.Key.{
  ObjectNamespace, ObjectKey, is_lower_hex, is_sha256_hex, digest, check_segments, parse_segments,
  parse, key_text, key_for_digest, id_part, namespace, bureau_prefix, partner_prefix,
}

encode_utf8_of_hex :
    (c : ℕ) (rest : List ℕ)
    → all (encode_utf8 c ++ rest) is_lower_hex ≡ true
    → (encode_utf8 c ≡ c ∷ []) × (all rest is_lower_hex ≡ true) × (c ≢ b'/')
unfolding encode_utf8 is_lower_hex
encode_utf8_of_hex c rest h = ground arith

-- A text whose bytes are hexadecimal digits is its bytes, and holds no slash.
pub bytes_of_hex : (s : Text) → all (bytes s) is_lower_hex ≡ true → (bytes s ≡ s) × Lacks b'/' s
unfolding bytes
bytes_of_hex [] h = (refl, tt)
bytes_of_hex (c ∷ s) h = ground (arith, encode_utf8_of_hex c (bytes s) h, bytes_of_hex s)

pub is_sha256_hex-parts :
    (s : Text)
    → is_sha256_hex s ≡ true
    → (length s ≡ 64) × (all s is_lower_hex ≡ true) × (bytes s ≡ s) × Lacks b'/' s
unfolding is_sha256_hex len
is_sha256_hex-parts s h = ground (arith, bytes_of_hex s)

-- The other way, for a text of ASCII characters.
ascii_bytes : (s : Text) → all s is_lower_hex ≡ true → bytes s ≡ s
unfolding bytes encode_utf8 is_lower_hex
ascii_bytes [] h = refl
ascii_bytes (c ∷ s) h = ground (arith, ascii_bytes s)

pub is_sha256_hex_of_hex :
    (s : Text) → length s ≡ 64 → all s is_lower_hex ≡ true → is_sha256_hex s ≡ true
unfolding is_sha256_hex len
is_sha256_hex_of_hex s l h = rw (ascii_bytes s h, l) h

-- The shard of a digest is two hexadecimal digits.
shard_of_hex :
    (s : Text)
    → is_sha256_hex s ≡ true
    → (len (take 2 s) ≡ 2) × (all (bytes (take 2 s)) is_lower_hex ≡ true) × Lacks b'/' (take 2 s)
unfolding len
shard_of_hex s h =
    let parts = is_sha256_hex-parts s h in
    let hex = all-take is_lower_hex 2 s parts.1 in
    let e = ascii_bytes (take 2 s) hex in
    let hex_bytes : all (bytes (take 2 s)) is_lower_hex ≡ true = rw e hex in
    (
      rw e (omega (arith, parts.0, length-take 2 s)),
      hex_bytes,
      (bytes_of_hex (take 2 s) hex_bytes).1,
    )

module _ (U : UuidText) where
  -- bureau-<uuid>/partner-<uuid>/<shard>/<sha256>, with any accepted spelling of the two UUIDs.
  pub record KeyParts (raw : Text) : Type 0 where
    pub bureau : Text
    pub partner : Text
    pub name : Text
    pub bureau_id : Uuid
    pub partner_id : Uuid
    pub parts :
        split raw b'/'
        ≡ (bureau_prefix ++ bureau) ∷ (partner_prefix ++ partner) ∷ take 2 name ∷ name ∷ []
    pub bureau_parses : U.parse_str bureau ≡ some bureau_id
    pub partner_parses : U.parse_str partner ≡ some partner_id
    pub hex : is_sha256_hex name ≡ true

  -- A text of that shape is accepted, as it stands.
  pub parse_of_KeyParts : (raw : Text) → KeyParts raw → parse U raw ≡ ok (record { raw = raw })
  unfolding parse parse_segments check_segments
  parse_of_KeyParts raw k =
      let shard = shard_of_hex k.name k.hex in
      rw (
        k.parts, strip_prefix-append, k.bureau_parses, strip_prefix-append, k.partner_parses, k.hex,
        shard.0, shard.1, text_eq_refl,
      )

  -- What the checks of the segments establish.
  check_segments-eq_ok :
      (first second shard name : Text) {u : Unit {0}}
      → check_segments U first second shard name ≡ ok u
      → (bureau : Text) × (bureau_id : Uuid) × (partner : Text) × (partner_id : Uuid)
        × (strip_prefix first bureau_prefix ≡ some bureau)
        × (U.parse_str bureau ≡ some bureau_id)
        × (strip_prefix second partner_prefix ≡ some partner)
        × (U.parse_str partner ≡ some partner_id)
        × (is_sha256_hex name ≡ true)
        × (text_eq shard (take 2 name) ≡ true)
  unfolding check_segments
  check_segments-eq_ok first second shard name h = ground arith

  KeyParts_of_segments :
      (raw first second shard name : Text) {u : Unit {0}}
      → split raw b'/' ≡ first ∷ second ∷ shard ∷ name ∷ []
      → check_segments U first second shard name ≡ ok u
      → KeyParts raw
  KeyParts_of_segments raw first second shard name e h =
      let (b, i, p, j, eb, ei, ep, ej, hex, same) =
        check_segments-eq_ok first second shard name h in
      record {
        bureau = b;
        partner = p;
        name = name;
        bureau_id = i;
        partner_id = j;
        parts =
            rw
              (
                ← strip_prefix-eq_some first bureau_prefix eb,
                ← strip_prefix-eq_some second partner_prefix ep,
                ← (text_eq_iff shard (take 2 name)).0 same,
              )
              e;
        bureau_parses = ei;
        partner_parses = ej;
        hex = hex;
      }

  KeyParts_of_list :
      (raw : Text) (ps : List Text) {u : Unit {0}}
      → split raw b'/' ≡ ps
      → parse_segments U ps ≡ ok u
      → KeyParts raw
  unfolding parse_segments
  KeyParts_of_list raw (a ∷ b ∷ c ∷ d ∷ []) e h = KeyParts_of_segments raw a b c d e h
  KeyParts_of_list raw _ e h = absurd (ground arith)

  -- Only texts of that shape are accepted, and the key is the text.
  pub parse-KeyParts :
      (raw : Text) {key : ObjectKey} → parse U raw ≡ ok key → KeyParts raw × (key.raw ≡ raw)
  unfolding parse
  parse-KeyParts raw h =
      let (u, checked, built) = >>=-passed (parse_segments U (split raw b'/')) _ h in
      (KeyParts_of_list raw (split raw b'/') refl checked, ground arith)

  -- The digest and the namespace of an accepted key are the ones that its text names.
  pub digest_of_KeyParts : (raw : Text) (k : KeyParts raw) → digest (record { raw = raw }) ≡ k.name
  unfolding digest
  digest_of_KeyParts raw k = rw k.parts

  id_part-append :
      (prefix value : Text) → id_part U prefix (some (prefix ++ value)) ≡ U.parse_str value
  unfolding id_part
  id_part-append prefix value = rw (strip_prefix-append prefix value, id_part)

  pub namespace_of_KeyParts :
      (raw : Text) (k : KeyParts raw)
      → namespace U (record { raw = raw })
        ≡ ok (record { bureau_id = k.bureau_id; partner_id = k.partner_id })
  unfolding namespace
  namespace_of_KeyParts raw k =
      rw (k.parts, id_part-append, k.bureau_parses, id_part-append, k.partner_parses)

  -- A key that parses belongs to a namespace and carries a 64-digit digest: `namespace` and
  -- `digest` never fail on it.
  pub parse-namespace-digest :
      (raw : Text) {key : ObjectKey}
      → parse U raw ≡ ok key
      → ((ns : ObjectNamespace) × (namespace U key ≡ ok ns)) × (is_sha256_hex (digest key) ≡ true)
  parse-namespace-digest raw {key} h =
      let (k, e) = parse-KeyParts raw h in
      let same : key ≡ record { raw = raw } = λ i. record { raw = e i } in
      rw same ((_, namespace_of_KeyParts raw k), rw (digest_of_KeyParts raw k) k.hex)

Lacks-append : (sep : ℕ) (s t : Text) → Lacks sep s → Lacks sep t → Lacks sep (s ++ t)
Lacks-append sep [] t hs ht = ht
Lacks-append sep (c ∷ s) t (p, hs) ht = (p, Lacks-append sep s t hs ht)

split_four :
    (a b c d : Text)
    → Lacks b'/' a
    → Lacks b'/' b
    → Lacks b'/' c
    → Lacks b'/' d
    → split (a ++ (b'/' ∷ (b ++ (b'/' ∷ (c ++ (b'/' ∷ d)))))) b'/' ≡ a ∷ b ∷ c ∷ d ∷ []
split_four a b c d ha hb hc hd = rw (
  split-append a (b ++ (b'/' ∷ (c ++ (b'/' ∷ d)))) b'/' ha,
  split-append b (c ++ (b'/' ∷ d)) b'/' hb,
  split-append c d b'/' hc,
  split_of_Lacks d b'/' hd,
)

-- A namespace whose ids are UUIDs, over a uuid crate that does what it documents.
module _ (U : UuidText) (L : IsUuidText U) (ns : ObjectNamespace) where
  key_text-KeyParts :
      (sha : Text)
      → ns.bureau_id < uuid_limit
      → ns.partner_id < uuid_limit
      → is_sha256_hex sha ≡ true
      → KeyParts U (key_text U ns sha)
  unfolding key_text
  key_text-KeyParts sha fits_b fits_p hex = record {
    bureau = U.format ns.bureau_id;
    partner = U.format ns.partner_id;
    name = sha;
    bureau_id = ns.bureau_id;
    partner_id = ns.partner_id;
    parts =
        split_four (bureau_prefix ++ U.format ns.bureau_id)
          (partner_prefix ++ U.format ns.partner_id) (take 2 sha) sha
          (Lacks-append b'/' bureau_prefix _ (omega arith) (L.format-Lacks _))
          (Lacks-append b'/' partner_prefix _ (omega arith) (L.format-Lacks _))
          (shard_of_hex sha hex).2 (is_sha256_hex-parts sha hex).3;
    bureau_parses = L.parse_str-format _ fits_b;
    partner_parses = L.parse_str-format _ fits_p;
    hex = hex;
  }

  -- For a valid digest `key_for_digest` gives a key, from which the namespace and the digest can
  -- be read back, and which `parse` accepts again.
  pub key_for_digest_roundtrip :
      (sha : Text)
      → ns.bureau_id < uuid_limit
      → ns.partner_id < uuid_limit
      → is_sha256_hex sha ≡ true
      → (key : ObjectKey) × (key_for_digest U ns sha ≡ ok key)
        × (namespace U key ≡ ok ns)
        × (digest key ≡ sha)
        × (parse U key.raw ≡ ok key)
  unfolding key_for_digest key_text-KeyParts
  key_for_digest_roundtrip sha fits_b fits_p hex =
      let k = key_text-KeyParts sha fits_b fits_p hex in
      (
        record { raw = key_text U ns sha },
        rw hex (parse_of_KeyParts U _ k),
        namespace_of_KeyParts U _ k,
        digest_of_KeyParts U _ k,
        parse_of_KeyParts U _ k,
      )

-- One object never serves two tenants or two contents: equal keys come from equal bureaus,
-- partners and digests.
pub key_for_digest_injective :
    (U : UuidText) (L : IsUuidText U) (ns ns' : ObjectNamespace) (sha sha' : Text)
    → ns.bureau_id < uuid_limit
    → ns.partner_id < uuid_limit
    → ns'.bureau_id < uuid_limit
    → ns'.partner_id < uuid_limit
    → is_sha256_hex sha ≡ true
    → is_sha256_hex sha' ≡ true
    → key_for_digest U ns sha ≡ key_for_digest U ns' sha'
    → (ns ≡ ns') × (sha ≡ sha')
key_for_digest_injective U L ns ns' sha sha' b p b' p' hex hex' same =
    let (k, e, en, ed, _) = key_for_digest_roundtrip U L ns sha b p hex in
    let (k', e', en', ed', _) = key_for_digest_roundtrip U L ns' sha' b' p' hex' in
    let keys : k ≡ k' = cc in (ground (arith, keys), cc keys)
