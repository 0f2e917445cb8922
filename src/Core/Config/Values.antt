-- ===== src/Core/Config/Values.antt =====
-- crates/otdel-core/src/config.rs: the readers of single values.
use otdel.Prelude.{
  ℕ, ◌*◌, ◌^◌, String, Bool, true, false, ◌||◌, none, some, [], ◌∷◌, ltb, if◌then◌else◌, is_empty,
  Result, ok, err, ◌>>=◌, ok_or, lit, arg,
}
use otdel.Prelude.Text.{Text, codes, text_eq, to_ascii_lowercase, trim, parse_u64}
use otdel.Core.AppError
use otdel.Core.AppError.{AppError}
use otdel.Core.Secret.{looks_like_placeholder}
use otdel.Prelude.Table.{Table}

abbrev pub session_seconds_min : ℕ
session_seconds_min = 60

abbrev pub session_ttl_max : ℕ
session_ttl_max = 7 * 24 * 3600

pub data RuntimeEnv : Type 0 where
  local production : RuntimeEnv

pub record LoginThrottle : Type 0 where
  pub max_failures : ℕ
  pub window : ℕ
  pub lockout : ℕ

-- `ConfigSource`
abbrev pub Source : Type 0
Source = Table Text

abbrev pub invalid : String → AppError
invalid message = AppError.validation (lit message ∷ [])

unfoldable pub parse_env : Text → Result RuntimeEnv AppError
unfolding to_ascii_lowercase trim text_eq
parse_env value =
    let name = to_ascii_lowercase (trim value) in
    if text_eq name (codes "local")
      || text_eq name (codes "development")
      || text_eq name (codes "dev")
    then ok local
    else if text_eq name (codes "production") || text_eq name (codes "prod")
    then ok production
    else err (
        AppError.validation
          (lit "OTDEL_ENV must be `local` or `production`, got `" ∷ arg name ∷ lit "`" ∷ []))

unfoldable pub string_or : Source → Text → Text → Text
string_or source key default = elim (source key) [
  | none ↦ default
  | some value ↦ if is_empty (trim value) then default else trim value
]

unfoldable pub placeholder_error : Text → AppError
placeholder_error key = AppError.validation (
    arg key
    ∷ lit " still contains an empty or example value; generate local credentials with "
    ∷ lit "`scripts/dev-init.sh` (the server refuses to start with a known placeholder)"
    ∷ [])

unfoldable pub required_secret : Source → Text → Result Text AppError
unfolding placeholder_error
required_secret source key =
    ok_or (source key) (AppError.validation (arg key ∷ lit " is not set" ∷ [])) >>= λ value.
    if looks_like_placeholder value then err (placeholder_error key) else ok value

unfoldable pub parse_bool : Text → Text → Result Bool AppError
unfolding to_ascii_lowercase trim text_eq
parse_bool value key =
    let name = to_ascii_lowercase (trim value) in
    if text_eq name (codes "1")
      || text_eq name (codes "true")
      || text_eq name (codes "yes")
      || text_eq name (codes "on")
    then ok true
    else if text_eq name (codes "0")
        || text_eq name (codes "false")
        || text_eq name (codes "no")
        || text_eq name (codes "off")
    then ok false
    else err (AppError.validation (arg key ∷ lit " must be true or false" ∷ []))

unfoldable pub parse_u64_or : Source → Text → ℕ → Result ℕ AppError
unfolding parse_u64
parse_u64_or source key default = elim (source key) [
  | none ↦ ok default
  | some value ↦
      if is_empty (trim value)
      then ok default
      else ok_or (parse_u64 (trim value))
          (AppError.validation (arg key ∷ lit " must be a non-negative integer" ∷ []))
]

abbrev pub duration_secs_or : Source → Text → ℕ → Result ℕ AppError
duration_secs_or = parse_u64_or

-- `u32::try_from`
abbrev pub to_u32 : ℕ → String → Result ℕ AppError
to_u32 n message = if ltb n (2 ^ 32) then ok n else err (AppError.validation (lit message ∷ []))
