-- ===== src/Tests/Starting.antt =====
-- A server that starts on an empty disk, and commands of the programs.
use otdel.Prelude.{◌≡◌, refl, false, some, [], ◌∷◌, ok, Message}
use otdel.Prelude.Text.{codes, text_eq, trim_end_matches}
use otdel.Api.Startup.{new_state, build_state}
use otdel.Api.Startup.Checked.{build_state_of}
use otdel.Core.Secret
use otdel.Programs.{run_hash_password, exit_code, parse_command}
use otdel.Db.Database.{verify_runtime_role}
use otdel.Db.DbError.{DbError}
use otdel.Storage.Disk.{dir, Disk, lookup, insert, path_eq, call, create_private_dir}
use otdel.Storage.Fs.{FilesystemObjectStore, objects_dir, staging_dir, open_at}
use otdel.Storage.StorageError.{StorageError}
use otdel.Tests.Databases.{runtime}
use otdel.Tests.Requests.{loaded}

abbrev fresh : Disk
fresh = record { entries = []; faults = []; clock = 7; left_behind = [] }

abbrev made : Disk
made = record fresh {
  entries =
      (codes "r" ∷ [], dir)
      ∷ (codes "r" ∷ objects_dir ∷ [], dir)
      ∷ (codes "r" ∷ staging_dir ∷ [], dir)
      ∷ [];
}

abbrev opened_store : FilesystemObjectStore
opened_store = record {
  root = codes "r" ∷ [];
  objects_root = codes "r" ∷ objects_dir ∷ [];
  staging_root = codes "r" ∷ staging_dir ∷ [];
}

open_run : open_at (codes "r" ∷ []) fresh ≡ (ok opened_store, made)
unfolding open_at create_private_dir call lookup insert path_eq text_eq
open_run = refl

verify_run : verify_runtime_role runtime ≡ ok tt
unfolding verify_runtime_role
verify_run = refl

abbrev no_text : DbError → Message
no_text error = []

abbrev no_words : StorageError → Message
no_words error = []

build_run :
    build_state no_text no_words loaded (λ text. codes "r" ∷ []) (ok tt) (ok runtime) fresh
    ≡ (ok (new_state loaded opened_store), made)
build_run =
    build_state_of no_text no_words loaded (λ text. codes "r" ∷ []) fresh runtime
      {store = opened_store} {d' = made} verify_run open_run

-- The line end that a pipe adds is no part of the password.
piped : run_hash_password some false (ok (codes "twelve chars\r\n")) ≡ ok (codes "twelve chars")
unfolding run_hash_password Secret.hash_password trim_end_matches
piped = refl

unknown_command : exit_code (parse_command (some (codes "server"))) (λ command. ok tt) ≡ 2
unfolding exit_code parse_command text_eq
unknown_command = refl
