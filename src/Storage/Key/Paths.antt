-- ===== src/Storage/Key/Paths.antt =====
-- Where a key leads on disk: always to a place four levels below the root, never outside it.
use otdel.Prelude.{
  ℕ, ◌<◌, ◌≡◌, refl, ◌∙◌, ◌≢◌, true, List, [], ◌∷◌, ◌++◌, append_assoc, append-nil, arith, length,
  take, all, length-take, all-take, All, ok,
}
use otdel.Prelude.Text.{
  Text, codes, text_eq_iff, text_eq_refl, split, Lacks, split_of_Lacks, split-Lacks,
}
use otdel.Storage.Uuid.{UuidText}
use otdel.Storage.Key.{
  ObjectKey, is_lower_hex, parse, normal, later_components, first_components, components, FilePath,
  resolve_segments, path_starts_with, resolve_within,
}
use otdel.Storage.Key.Shape.{KeyParts, parse-KeyParts, is_sha256_hex-parts}

-- A part of a path that is no separator, no `.` and no `..`.
abbrev pub IsPlain : Text → Type 0
IsPlain s = (s ≢ []) × (s ≢ codes ".") × (s ≢ codes "..") × Lacks b'/' s

components_of_IsPlain : (s : Text) → IsPlain s → components s ≡ normal s ∷ []
unfolding components first_components later_components
components_of_IsPlain [] h = absurd (h.0 refl)
components_of_IsPlain (c ∷ s) h =
    let e = split_of_Lacks (c ∷ s) b'/' h.3 in
    ground (
      arith,
      e,
      text_eq_iff (c ∷ s) (codes "."),
      text_eq_iff (c ∷ s) (codes ".."),
      text_eq_iff (c ∷ s) [],
    )

resolve_segments_of_plain :
    (path : FilePath) (segments : List Text)
    → All IsPlain segments
    → resolve_segments path segments ≡ ok (path ++ segments)
unfolding resolve_segments
resolve_segments_of_plain path [] h = rw append-nil
resolve_segments_of_plain path (s ∷ ss) (h, hs) =
    rw (components_of_IsPlain s h, resolve_segments)
      (resolve_segments_of_plain (path ++ s ∷ []) ss hs ∙ rw append_assoc)

path_starts_with-append : (root rest : FilePath) → path_starts_with (root ++ rest) root ≡ true
unfolding path_starts_with
path_starts_with-append [] rest = refl
path_starts_with-append (r ∷ root) rest = rw text_eq_refl (path_starts_with-append root rest)

IsPlain-of_hex : (s : Text) → 0 < length s → all s is_lower_hex ≡ true → Lacks b'/' s → IsPlain s
unfolding is_lower_hex
IsPlain-of_hex [] l h k = absurd (omega arith)
IsPlain-of_hex (c ∷ s) l h k = (λ e. cc, λ e. ground arith, λ e. ground arith, k)

IsPlain-prefixed :
    (c : ℕ) (p s : Text) → c ≢ b'.' → Lacks b'/' ((c ∷ p) ++ s) → IsPlain ((c ∷ p) ++ s)
IsPlain-prefixed c p s h k = (λ e. cc, λ e. ground arith, λ e. ground arith, k)

module _ (U : UuidText) (raw : Text) where
  parts-IsPlain : KeyParts U raw → All IsPlain (split raw b'/')
  parts-IsPlain k =
      let lacks = rw k.parts at (split-Lacks raw b'/') in
      let hex = is_sha256_hex-parts k.name k.hex in
      rw k.parts (
        IsPlain-prefixed b'b' (codes "ureau-") k.bureau (omega arith) lacks.0,
        (
          IsPlain-prefixed b'p' (codes "artner-") k.partner (omega arith) lacks.1.0,
          (
            IsPlain-of_hex (take 2 k.name) (omega (arith, length-take 2 k.name, hex.0))
                (all-take is_lower_hex 2 k.name hex.1) lacks.1.1.0,
            (IsPlain-of_hex k.name (omega (arith, hex.0)) hex.1 hex.3, tt),
          ),
        ),
      )

  -- A key that parses resolves, under every root, to the root followed by exactly the four
  -- segments of the key, none of which is empty, `.`, `..` or holds a slash. So no key in the
  -- database can make the store leave its tree.
  pub resolve_within-parse :
      (root : FilePath) {key : ObjectKey}
      → parse U raw ≡ ok key
      → (resolve_within key root ≡ ok (root ++ split raw b'/'))
        × (length (split raw b'/') ≡ 4)
        × All IsPlain (split raw b'/')
  unfolding resolve_within
  resolve_within-parse root {key} h =
      let (k, e) = parse-KeyParts U raw h in
      let plain = parts-IsPlain k in
      (
        rw (e, resolve_segments_of_plain root (split raw b'/') plain, path_starts_with-append),
        rw k.parts,
        plain,
      )
