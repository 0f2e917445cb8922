-- ===== src/Db/DbError.antt =====
-- crates/otdel-db/src/error.rs: database errors and what a client learns of them.
use otdel.Prelude.{Bool, false, Option, none, some, List, [], ◌∷◌, if◌then◌else◌, lit, Message}
use otdel.Prelude.Text.{Text, codes, text_eq}
use otdel.Core.ErrorCode
use otdel.Core.AppError
use otdel.Core.AppError.{AppError}

-- What the program distinguishes of `sqlx::Error`: a database error has its code and constraint.
pub data SqlxError : Type 0 where
  pool_timed_out io row_not_found other : SqlxError
  database : Text → Option Text → SqlxError

pub data DbError : Type 0 where
  sqlx : SqlxError → DbError
  migrate : DbError
  decode : Message → DbError
  unsafe_runtime_role : Text → List Message → DbError

unfoldable pub unique_violation : DbError → Option Text
unique_violation (sqlx (database code constraint)) =
    if text_eq code (codes "23505") then constraint else none
unique_violation _ = none

unfoldable pub is_rls_violation : DbError → Bool
is_rls_violation (sqlx (database code constraint)) = text_eq code (codes "42501")
is_rls_violation _ = false

unfoldable pub to_app_error : DbError → AppError
to_app_error (sqlx pool_timed_out) =
    AppError.unavailable (lit "the database is not available right now" ∷ [])
to_app_error (sqlx io) = AppError.unavailable (lit "the database is not available right now" ∷ [])
to_app_error _ = AppError.new ErrorCode.internal (lit "internal server error" ∷ [])

-- The errors that PostgreSQL raises: a CHECK, a key of another table, a unique constraint, a number.
abbrev pub check_violation : DbError
check_violation = sqlx (database (codes "23514") none)

abbrev pub foreign_key_violation : DbError
foreign_key_violation = sqlx (database (codes "23503") none)

abbrev pub primary_key_violation : Text → DbError
primary_key_violation constraint = sqlx (database (codes "23505") (some constraint))

abbrev pub number_out_of_range : DbError
number_out_of_range = sqlx (database (codes "22003") none)
