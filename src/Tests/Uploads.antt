-- ===== src/Tests/Uploads.antt =====
-- Uploads into a small tree: one that succeeds, one that repeats it and one that breaks off.
use otdel.Prelude.{ℕ, ◌≡◌, refl, ◌⊎◌, false, none, List, [], ◌∷◌, Result, ok, err}
use otdel.Prelude.Text.{Text, codes, text_eq, strip_prefix, split, bytes}
use otdel.Storage.StorageError.{StorageError, upstream, stream}
use otdel.Storage.Key.{
  key_text, key_for_digest, resolve_within, is_sha256_hex, parse, path_starts_with, components,
}
use otdel.Storage.Disk.{
  dir, Disk, path_eq, lookup, insert, erase, call, stat, create_new, append_file, rename,
  remove_file, create_private_dir,
}
use otdel.Storage.Fs.{
  FilesystemObjectStore, StoredObject, ByteStream, objects_dir, staging_dir, hex_lower,
  write_chunks, same_size, drop_guard, publish, put_stream,
}
use otdel.Storage.Fs.Failure.{FilesKept, LeftBehind, put_stream_err}
use otdel.Storage.Fs.Upload.{Uploaded, put_stream_ok}
use otdel.Tests.Uuids.{uuids}
use otdel.Tests.Keys.{bureau_one}

-- A stand-in for SHA-256 that always gives 32 zero bytes.
abbrev pub zeros : List ℕ → List ℕ
zeros bytes =
    0 ∷ 0 ∷ 0 ∷ 0 ∷ 0 ∷ 0 ∷ 0 ∷ 0 ∷ 0 ∷ 0 ∷ 0 ∷ 0 ∷ 0 ∷ 0 ∷ 0 ∷ 0 ∷ 0 ∷ 0 ∷ 0 ∷ 0 ∷ 0 ∷ 0 ∷ 0 ∷ 0
    ∷ 0 ∷ 0 ∷ 0 ∷ 0 ∷ 0 ∷ 0 ∷ 0 ∷ 0 ∷ []

abbrev pub store : FilesystemObjectStore
store = record {
  root = codes "r" ∷ [];
  objects_root = codes "r" ∷ objects_dir ∷ [];
  staging_root = codes "r" ∷ staging_dir ∷ [];
}

abbrev pub empty_tree : Disk
empty_tree = record {
  entries =
      (codes "r" ∷ [], dir)
      ∷ (codes "r" ∷ objects_dir ∷ [], dir)
      ∷ (codes "r" ∷ staging_dir ∷ [], dir)
      ∷ [];
  faults = [];
  clock = 7;
  left_behind = [];
}

abbrev pub body : ByteStream
body = ok (1 ∷ 2 ∷ []) ∷ ok (3 ∷ []) ∷ []

abbrev broken : ByteStream
broken = ok (1 ∷ 2 ∷ []) ∷ err (record { kind = upstream; message = [] }) ∷ []

abbrev pub name : Text
name = codes "u.part"

unfoldable pub run : ByteStream → Disk → Result StoredObject StorageError × Disk
unfolding put_stream write_chunks publish drop_guard hex_lower same_size key_for_digest
    resolve_within parse key_text is_sha256_hex path_starts_with components uuids path_eq lookup
    insert erase call stat create_new append_file rename remove_file create_private_dir text_eq
    split strip_prefix
run = put_stream uuids zeros store name bureau_one

unfoldable pub first : StoredObject
unfolding key_text uuids hex_lower
first = record {
  key = record { raw = key_text uuids bureau_one (hex_lower (zeros [])) };
  sha256 = hex_lower (zeros []);
  size_bytes = 3;
  already_present = false;
}

unfoldable pub after_first : Disk
unfolding run
after_first = (run body empty_tree).1

pub run-first : run body empty_tree ≡ (ok first, after_first)
unfolding run first after_first
run-first = refl

put_stream_ok_example : Uploaded uuids zeros store name bureau_one body empty_tree first after_first
unfolding run
put_stream_ok_example =
    put_stream_ok uuids zeros store name bureau_one body empty_tree (refl, refl) {stored = first}
      {d' = after_first} run-first

broken-run :
    run broken empty_tree
    ≡ (err (stream (record { kind = upstream; message = [] })), (run broken empty_tree).1)
unfolding run
broken-run = refl

put_stream_err_example :
    FilesKept
      (codes "r" ∷ staging_dir ∷ name ∷ [])
      empty_tree.entries
      (run broken empty_tree).1.entries
    × ((lookup (codes "r" ∷ staging_dir ∷ name ∷ []) (run broken empty_tree).1.entries ≡ none)
        ⊎ LeftBehind (codes "r" ∷ staging_dir ∷ name ∷ []) (run broken empty_tree).1)
unfolding run
put_stream_err_example =
    put_stream_err uuids zeros store name bureau_one broken empty_tree broken-run
