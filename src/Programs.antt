-- ===== src/Programs.antt =====
-- apps/api/src/main.rs and apps/worker/src/main.rs: the commands that administer a deployment, and one
-- maintenance pass. An `anyhow` error is the chain of its messages, the outermost first; what the
-- errors display is an argument, as is the answer of each connection.
use otdel.Prelude.{
  ℕ, String, Bool, true, false, ◌||◌, Option, none, some, List, [], ◌∷◌, ◌==◌, if◌then◌else◌,
  Result, ok, err, ◌>>=◌, map_err, lit, Message,
}
use otdel.Prelude.Text.{Text, codes, text_eq, trim_end_matches}
use otdel.Core.AppError.{AppError}
use otdel.Core.Config.{Config, require_admin_database_url}
use otdel.Core.Model.{DateTime}
use otdel.Core.Secret
use otdel.Db.Database.{RoleRow, verify_runtime_role, Schema, run_migrations, bootstrap_bureau}
use otdel.Db.DbError.{DbError}
use otdel.Db.Sessions.{Bureau}
use otdel.Storage.Disk.{Disk}
use otdel.Storage.Fs.{FilesystemObjectStore, open_at}
use otdel.Storage.Key.{FilePath}
use otdel.Storage.StorageError.{StorageError}
use otdel.Storage.Uuid.{Uuid, UuidText}
use otdel.Worker.{MaintenanceReport, MaintenanceError, State, default_settings, run_once}

abbrev pub Chain : Type 0
Chain = List Message

-- `anyhow!("{}", error.message)`
abbrev pub message_only : {A : Type 0} → Result A AppError → Result A Chain
message_only r = map_err (λ (e : AppError). e.message ∷ []) r

-- `.context(..)`
abbrev pub with_context : {A E : Type 0} → String → (E → Message) → Result A E → Result A Chain
with_context what display r = map_err (λ e. (lit what ∷ []) ∷ display e ∷ []) r

-- The names of the commands of otdel-api.
pub data Command : Type 0 where
  serve migrate bootstrap hash_password check_config print_usage : Command

unfoldable pub parse_command : Option Text → Option Command
parse_command none = some serve
parse_command (some command) =
    if text_eq command (codes "serve")
    then some serve
    else if text_eq command (codes "migrate")
    then some migrate
    else if text_eq command (codes "bootstrap")
    then some bootstrap
    else if text_eq command (codes "hash-password")
    then some hash_password
    else if text_eq command (codes "check-config")
    then some check_config
    else if text_eq command (codes "-h")
        || (text_eq command (codes "--help") || text_eq command (codes "help"))
    then some print_usage
    else none

-- The exit code of `main`: 2 for an unknown command, 1 for one that fails.
unfoldable pub exit_code : Option Command → (Command → Result (Unit {0}) Chain) → ℕ
exit_code none run = 2
exit_code (some command) run = elim (run command) [ ok done ↦ 0 | err failure ↦ 1 ]

-- The part that `migrate` and `bootstrap` share: the configuration with its admin URL.
admin_config : Result Config AppError → Result (Config × Text) Chain
unfolding require_admin_database_url
admin_config loaded = message_only loaded >>= λ config.
    message_only (require_admin_database_url config) >>= λ admin_url. ok (config, admin_url)

module _ (display : DbError → Message) (connect : Text → Result (Unit {0}) DbError) where
  unfoldable pub run_migrate :
      {S : Type 0}
      → Result Config AppError
      → (Schema S → Result (Unit {0}) DbError × Schema S)
      → Schema S
      → Result (Unit {0}) Chain × Schema S
  unfolding admin_config
  run_migrate loaded migrator schema = elim (admin_config loaded) [
    | err chain ↦ (err chain, schema)
    | ok (config, admin_url) ↦ elim (connect admin_url) [
      | err failure ↦ (with_context "applying migrations" display (err failure), schema)
      | ok pool ↦
          let (answer, schema') = run_migrations migrator schema in
          (with_context "applying migrations" display answer, schema')
    ]
  ]

  unfoldable pub run_bootstrap :
      Result Config AppError → Uuid → List Bureau → Result (Uuid × List Bureau) Chain
  unfolding admin_config
  run_bootstrap loaded new_id bureaus = admin_config loaded >>= λ (config, admin_url).
      with_context "provisioning the bureau" display
        (connect admin_url >>= λ pool. bootstrap_bureau new_id bureaus config.bureau_slug)

abbrev is_line_end : ℕ → Bool
is_line_end c = (c == b'\n') || (c == b'\r')

-- The password comes from the standard input, never from a terminal; what is printed is its hash.
unfoldable pub run_hash_password :
    (Text → Option Text) → Bool → Result Text Message → Result Text Chain
run_hash_password hash true stdin = err (
    (lit "pipe the password into stdin, e.g. `printf '%s' \"$PASSWORD\" | otdel-api hash-password`"
      ∷ [])
    ∷ [])
run_hash_password hash false stdin =
    with_context "reading the password from stdin" (λ e. e) stdin >>= λ password.
    message_only (Secret.hash_password hash (trim_end_matches is_line_end password))

module _ (U : UuidText) (display : MaintenanceError → Message) (display_db : DbError → Message)
    (display_storage : StorageError → Message) where
  -- What follows the opening of the store.
  pass :
      Config
      → List Bureau
      → DateTime
      → State
      → Result FilesystemObjectStore StorageError × Disk
      → Result MaintenanceReport Chain × State
  pass config bureaus now s (err failure, d) =
      (with_context "opening the object store" display_storage (err failure), record s { disk = d })
  pass config bureaus now s (ok store, d) =
      let (reported, s') =
        run_once U default_settings config bureaus store now (record s { disk = d }) in
      (with_context "maintenance pass" display reported, s')

  -- `run(true)` of otdel-worker; `role` is what the query in `verify_runtime_role` answers.
  unfoldable pub run_single_pass :
      Result Config AppError
      → FilePath
      → Result (Unit {0}) DbError
      → Result RoleRow DbError
      → List Bureau
      → DateTime
      → State
      → Result MaintenanceReport Chain × State
  unfolding pass
  run_single_pass loaded root connected role bureaus now s = elim (message_only loaded) [
    | err chain ↦ (err chain, s)
    | ok config ↦ elim connected [
      | err failure ↦ (with_context "connecting to the database" display_db (err failure), s)
      | ok pool ↦ elim (role >>= verify_runtime_role) [
        | err failure ↦
            (with_context "verifying the runtime database role" display_db (err failure), s)
        | ok verified ↦ pass config bureaus now s (open_at root s.disk)
      ]
    ]
  ]
