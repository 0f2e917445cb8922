-- ===== src/Lib.antt =====
-- Verification of OTDEL, the intake service of an agency bureau: partners, the originals that are
-- uploaded for them, and the queue of extraction jobs.
--
-- The program's parts. A client talks to the HTTP server (crates/otdel-api): a request gets its
-- bureau from the session that its cookie names, and every statement runs in a transaction of that
-- bureau (crates/otdel-db). An upload goes through the intake, which checks its type and size,
-- into the object store (crates/otdel-storage), and is then published as a material and a job in
-- one transaction. A maintenance worker (crates/otdel-worker) ends old sessions, frees lost jobs,
-- sweeps unfinished uploads and counts the stored objects to which no material refers; it shares
-- the store and the tables with the server. Names, states, media types, secrets and the
-- configuration are in crates/otdel-core.
--
-- The modules and the code:
--   Prelude          names that all modules share: texts as code points, results, tables
--   Core/ErrorCode, Core/AppError   crates/otdel-core/src/error.rs
--   Core/Media       crates/otdel-core/src/media.rs: detection by signature, declared types
--   Core/Model       crates/otdel-core/src/model.rs: records, states and their names
--   Core/Validate    crates/otdel-core/src/validate.rs: partner names, file names, headers
--   Core/Secret      crates/otdel-core/src/secret.rs: comparison, placeholders, fingerprints
--   Core/Config      crates/otdel-core/src/config.rs: Config::load, in the parts of the source
--   Storage/Key      crates/otdel-storage/src/key.rs: object keys, parsing and paths
--   Storage/Disk     the file system that the store uses: each call may fail
--   Storage/Fs       crates/otdel-storage/src/fs.rs: open_at and put_stream with its staging guard
--   Storage/Fs/Objects, Storage/Fs/Staging, Storage/Fs/Listing   open, delete and health; sweep_staging;
--                    list_objects
--   Storage/Fs/Steps the operations of the store as steps, with faults and time between them
--   Db/Rows          the tables of migrations/0001_schema.sql and the decoding of rows
--   Db/Partners, Db/Materials, Db/Jobs, Db/Sessions   the repositories of crates/otdel-db/src
--   Db/Isolation     the statements that write, as steps of a transaction
--   Db/Database      crates/otdel-db/src/lib.rs: the check of the role, pgvector, bootstrap_bureau
--   Api/Throttle     crates/otdel-api/src/auth/throttle.rs: counting of login attempts
--   Api/Throttle/Permits   the semaphore of password hashes, as moves of concurrent logins
--   Api/Auth         crates/otdel-api/src/auth/mod.rs: the Session extractor
--   Api/Cookie, Api/ApiError   crates/otdel-api/src/cookie.rs and error.rs
--   Api/Intake       crates/otdel-api/src/upload.rs: one file of a multipart request
--   Api/Routes       crates/otdel-api/src/routes: sessions, partners, materials and jobs
--   Api/Routes/Download, Api/Routes/Health   the download of an original; liveness and readiness
--   Api/Extract, Api/Startup   crates/otdel-api/src/extract.rs; build_state in lib.rs
--   Worker           crates/otdel-worker/src/lib.rs: run_once and its report of orphans
--   Programs         apps/api/src/main.rs and apps/worker/src/main.rs: the administrative commands
--   Tests            runs on concrete inputs, and the theorems at such inputs
--
-- State and errors. Fallible code returns Result, and its `?` is the operator `>>=`. The file
-- system is a state that is passed on, with a list of the calls that fail. A table is the list of
-- its rows; a statement is a function of the tables that writes out what PostgreSQL does with the
-- SQL: constraints, ON CONFLICT, RETURNING. A statement that fails leaves nothing, since its
-- transaction is rolled back. `now()` and the ids of gen_random_uuid() are arguments.
--
-- Bounds. The sums of byte counts in the intake are compared with a limit after every chunk, so
-- they stay far below 2^64 for chunks that fit into memory. Loops follow the structure of lists.
-- There are two with fuel: decimal, whose 20 digits are enough for numbers below 2^64, and the
-- walk of list_objects, whose stack grows while it runs. Its fuel is the number of directories in
-- a tree of three levels in which every directory has as many entries as the whole file tree; that
-- is enough, since each directory is popped once. size_bytes wraps at 2^64, and the conversions to
-- i32, u32 and i64 are written out.
--
-- Other code: the uuid crate, SHA-256, Argon2, the parsing of socket addresses and of PHC hashes
-- are parameters. Not modelled: lost connections, row-level security apart from the bureau in each
-- statement, logging, the multipart and JSON parsers, routing, the timer of the maintenance
-- worker, connecting to PostgreSQL and the migrations themselves, serving and signals, the web
-- client.
pub mod Prelude
pub mod Core
pub mod Storage
pub mod Db
pub mod Api
pub mod Worker
pub mod Programs
mod Tests
