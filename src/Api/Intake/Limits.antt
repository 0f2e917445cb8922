-- ===== src/Api/Intake/Limits.antt =====
-- What reaches the object store: the size limit, the content type and the bytes of the field.
use otdel.Prelude.{
  ℕ, ◌+◌, ◌≤◌, ◌≡◌, refl, sym, ap, ◌∙◌, ◌⊎◌, inl, inr, Option, none, some, List, [], ◌∷◌, ◌++◌, map,
  append_assoc, append-nil, arith, ltb, Bool-cases, Option-cases, length, length-append, ok, err,
  Result-cases,
}
use otdel.Prelude.Text.{Text, starts_with, strip_prefix, bytes}
use otdel.Core.Media
use otdel.Core.Media.{MediaType, signature_prefix_len}
use otdel.Api.Intake.{
  Field, field_stream, limit_size, read_head, check_declared, detect_type, prepare,
}
use otdel.Storage.Fs.{ByteStream}
use otdel.Storage.Fs.Publish.{contents}

-- A limited stream that ends well gave everything that the stream behind it gave, and no more
-- than the limit.
limit_size-contents_from :
    (max_bytes written : ℕ) (body : ByteStream) {all_bytes : List ℕ}
    → contents (limit_size max_bytes written body) ≡ some all_bytes
    → written ≤ max_bytes
    → (contents body ≡ some all_bytes) × (written + length all_bytes ≤ max_bytes)
unfolding limit_size
limit_size-contents_from max_bytes written [] {all_bytes} h le = (h, ground arith)
limit_size-contents_from max_bytes written (err failure ∷ body) {all_bytes} h le =
    absurd (ground arith)
limit_size-contents_from max_bytes written (ok chunk ∷ body) {all_bytes} h le =
    elim (Option-cases (contents (limit_size max_bytes (written + length chunk) body))) [
      | inl e ↦ absurd (ground arith)
      | inr (rest, e) ↦ elim (Bool-cases (ltb max_bytes (written + length chunk))) [
        | inl over ↦ absurd (ground arith)
        | inr within ↦
            let (inner, bound) =
              limit_size-contents_from max_bytes (written + length chunk) body e (ground arith) in
            (ground arith, ground (arith, length-append chunk rest))
      ]
    ]

-- All bytes of a field, if its parser gives them.
abbrev pub field_contents : List (Option (List ℕ)) → Option (List ℕ)
field_contents [] = some []
field_contents (none ∷ chunks) = none
field_contents (some chunk ∷ chunks) = elim (field_contents chunks) [
  | none ↦ none
  | some rest ↦ some (chunk ++ rest)
]

abbrev concat : List (List ℕ) → List ℕ
concat [] = []
concat (chunk ∷ chunks) = chunk ++ concat chunks

abbrev prepend : List ℕ → Option (List ℕ) → Option (List ℕ)
prepend before none = none
prepend before (some rest) = some (before ++ rest)

prepend-append : (a b : List ℕ) (o : Option (List ℕ)) → prepend (a ++ b) o ≡ prepend a (prepend b o)
prepend-append a b none = refl
prepend-append a b (some rest) = ap some (append_assoc a b rest)

prepend-nil : (o : Option (List ℕ)) → prepend [] o ≡ o
prepend-nil none = refl
prepend-nil (some rest) = refl

concat-append :
    (xs : List (List ℕ)) (chunk : List ℕ) → concat (xs ++ (chunk ∷ [])) ≡ concat xs ++ chunk
concat-append [] chunk = append-nil chunk
concat-append (x ∷ xs) chunk =
    ap (λ r. x ++ r) (concat-append xs chunk) ∙ sym (append_assoc x (concat xs) chunk)

contents-field_stream :
    (chunks : List (Option (List ℕ))) → contents (field_stream chunks) ≡ field_contents chunks
unfolding field_stream
contents-field_stream [] = refl
contents-field_stream (none ∷ chunks) = refl
contents-field_stream (some chunk ∷ chunks) = rw (contents-field_stream chunks)

contents-head :
    (head : List (List ℕ)) (body : ByteStream)
    → contents (map ok head ++ body) ≡ prepend (concat head) (contents body)
contents-head [] body = sym (prepend-nil (contents body))
contents-head (chunk ∷ head) body =
    ap (prepend chunk) (contents-head head body)
    ∙ sym (prepend-append chunk (concat head) (contents body))

-- What `read_head` holds back and leaves is the field, and it reads to the end unless the prefix
-- is long enough.
read_head-parts :
    (head : List (List ℕ)) (chunks : List (Option (List ℕ))) {p : List ℕ} {held : List (List ℕ)}
    {rest : List (Option (List ℕ))}
    → read_head (concat head) head chunks ≡ ok (p, held, rest)
    → (p ≡ concat held)
      × (prepend p (field_contents rest) ≡ prepend (concat head) (field_contents chunks))
      × ((rest ≡ []) ⊎ (signature_prefix_len ≤ length p))
unfolding read_head
read_head-parts head [] {p} {held} {rest} h = (ground arith, ground arith, inl (ground arith))
read_head-parts head (none ∷ chunks) {p} {held} {rest} h =
    elim (Bool-cases (ltb (length (concat head)) signature_prefix_len)) [
      | inr long ↦ (ground arith, ground arith, inr (ground arith))
      | inl short ↦ absurd (ground arith)
    ]
read_head-parts head (some bytes ∷ chunks) {p} {held} {rest} h =
    elim (Bool-cases (ltb (length (concat head)) signature_prefix_len)) [
      | inr long ↦ (ground arith, ground arith, inr (ground arith))
      | inl short ↦
          let again : read_head (concat (head ++ (bytes ∷ []))) (head ++ (bytes ∷ [])) chunks
              ≡ ok (p, held, rest) =
            rw (concat-append head bytes) (ground arith) in
          let (whole, same, long) = read_head-parts (head ++ (bytes ∷ [])) chunks again in
          (
            whole,
            same
                ∙ ap (λ b. prepend b (field_contents chunks)) (concat-append head bytes)
                ∙ prepend-append (concat head) bytes (field_contents chunks),
            long,
          )
    ]

-- The signature of a file is that of its prefix, if that is long enough.
starts_with-append :
    (p s signature : List ℕ)
    → length signature ≤ length p
    → starts_with (p ++ s) signature ≡ starts_with p signature
unfolding starts_with strip_prefix
starts_with-append p s [] h = refl
starts_with-append [] s (x ∷ signature) h = absurd (omega arith)
starts_with-append (c ∷ p) s (x ∷ signature) h = rw (starts_with-append p s signature (omega arith))

detect-append :
    (p s : List ℕ) → signature_prefix_len ≤ length p → Media.detect (p ++ s) ≡ Media.detect p
unfolding Media.detect
detect-append p s h = ground (
  arith,
  length-append p s,
  starts_with-append p s Media.pdf_signature (omega arith),
  starts_with-append p s Media.png_signature (omega arith),
  starts_with-append p s Media.jpeg_signature (omega arith),
)

prepare-steps :
    (max_bytes : ℕ) (field : Field) {filename : Text} {media_type : MediaType} {body : ByteStream}
    → prepare max_bytes field ≡ ok (filename, media_type, body)
    → (p : List ℕ) × (held : List (List ℕ)) × (rest : List (Option (List ℕ))) × (read_head [] []
          field.chunks
        ≡ ok (p, held, rest))
      × (detect_type p ≡ ok media_type)
      × (check_declared field.content_type media_type ≡ ok tt)
      × (body ≡ limit_size max_bytes 0 (map ok held ++ field_stream rest))
unfolding prepare
prepare-steps max_bytes field {filename} {media_type} {body} h =
    elim (Result-cases (read_head [] [] field.chunks)) [
      | inr (failure, r) ↦ absurd (ground arith)
      | inl ((p, held, rest), r) ↦ elim (Result-cases (detect_type p)) [
        | inr (failure, d) ↦ absurd (ground arith)
        | inl (found, d) ↦ elim (Result-cases (check_declared field.content_type found)) [
          | inr (failure, c) ↦ absurd (ground arith)
          | inl (tt, c) ↦ (p, held, rest, r, ground arith, ground arith, ground arith)
        ]
      ]
    ]

detect_type-whole :
    (p : List ℕ) (rest : List (Option (List ℕ))) {media_type : MediaType} {all_bytes : List ℕ}
    → detect_type p ≡ ok media_type
    → (rest ≡ []) ⊎ (signature_prefix_len ≤ length p)
    → prepend p (field_contents rest) ≡ some all_bytes
    → Media.detect all_bytes ≡ some media_type
unfolding detect_type
detect_type-whole p rest {media_type} {all_bytes} h long e =
    elim (Option-cases (field_contents rest)) [
      | inl n ↦ absurd (ground arith)
      | inr (r, n) ↦ elim (Option-cases (Media.detect p)) [
        | inl none' ↦ absurd (ground arith)
        | inr (found, f) ↦ elim long [
          | inl end ↦ ground (arith, append-nil p)
          | inr enough ↦ ground (arith, detect-append p r enough)
        ]
      ]
    ]

-- A file that is taken in: its stream, read to the end, gives exactly the bytes of the field; they
-- are not more than the limit, and the type of the file is the one that they show.
pub prepare_sound :
    (max_bytes : ℕ) (field : Field) {filename : Text} {media_type : MediaType} {body : ByteStream}
    {all_bytes : List ℕ}
    → prepare max_bytes field ≡ ok (filename, media_type, body)
    → contents body ≡ some all_bytes
    → (field_contents field.chunks ≡ some all_bytes)
      × (length all_bytes ≤ max_bytes)
      × (Media.detect all_bytes ≡ some media_type)
      × (check_declared field.content_type media_type ≡ ok tt)
prepare_sound max_bytes field {filename} {media_type} {body} {all_bytes} h g =
    let (p, held, rest, r, d, c, b) = prepare-steps max_bytes field h in
    let (whole, same, long) = read_head-parts [] field.chunks r in
    let (inner, bound) =
      limit_size-contents_from max_bytes 0 (map ok held ++ field_stream rest)
        (ap contents (sym b) ∙ g) (omega arith) in
    let joined : prepend p (field_contents rest) ≡ some all_bytes =
      ap (λ q. prepend q (field_contents rest)) whole
      ∙ ap (prepend (concat held)) (sym (contents-field_stream rest))
      ∙ sym (contents-head held (field_stream rest))
      ∙ inner in
    (
      sym (prepend-nil (field_contents field.chunks)) ∙ sym same ∙ joined,
      omega (arith, bound),
      detect_type-whole p rest d long joined,
      c,
    )
