-- ===== src/Api/Throttle.antt =====
-- crates/otdel-api/src/auth/throttle.rs: login throttling. An `Instant` and a `Duration` are numbers
-- of one unit, so `duration_since` is the subtraction that stops at 0, as in the standard library.
pub mod Burst
pub mod Clients
pub mod Eviction
pub mod Permits
use otdel.Prelude.{
  ℕ, ◌+◌, ◌-◌, Bool, true, ◌&&◌, not, Option, none, some, ltb, leb, if◌then◌else◌, Result, ok, err,
}
use otdel.Prelude.Text.{Text}
use otdel.Core.Config
use otdel.Prelude.Table.{Table, empty, insert, remove, retain}

abbrev pub Instant : Type 0
Instant = ℕ

abbrev pub Duration : Type 0
Duration = ℕ

-- `otdel_core::config::LoginThrottle`
abbrev pub ThrottleConfig : Type 0
ThrottleConfig = Config.LoginThrottle

pub record Attempts : Type 0 where
  pub started : ℕ
  pub window_started : Instant
  pub locked_until : Option Instant

pub record LoginThrottle : Type 0 where
  pub config : ThrottleConfig
  pub state : Table Attempts

unfoldable pub new : ThrottleConfig → LoginThrottle
new config = record { config = config; state = empty }

-- `locked_until.is_none_or(|until| until <= now)`
abbrev lock_expired : Option Instant → Instant → Bool
lock_expired none now = true
lock_expired (some until) now = leb until now

unfoldable pub is_stale : Attempts → Instant → Duration → Bool
is_stale attempts now window =
    lock_expired attempts.locked_until now && ltb window (now - attempts.window_started)

abbrev fresh : Instant → Attempts
fresh now = record { started = 0; window_started = now; locked_until = none }

-- `entry(key).or_insert(..)`
abbrev or_insert : Option Attempts → Instant → Attempts
or_insert none now = fresh now
or_insert (some attempts) now = attempts

-- What follows the lockout test: the window, the limit and the count.
count_attempt : ThrottleConfig → Attempts → Instant → Attempts × Result (Unit {0}) Duration
count_attempt c attempts now =
    let entry : Attempts =
      if ltb c.window (now - attempts.window_started)
      then record attempts { started = 0; window_started = now }
      else attempts in
    if leb c.max_failures entry.started
    then (record entry { locked_until = some (now + c.lockout) }, err c.lockout)
    else (record entry { started = entry.started + 1 }, ok tt)

-- The decision on one entry, with the lockout test first.
pub attempt : ThrottleConfig → Attempts → Instant → Attempts × Result (Unit {0}) Duration
unfolding count_attempt
attempt c entry now = elim entry.locked_until [
  | none ↦ count_attempt c entry now
  | some until ↦
      if ltb now until then (entry, err (until - now)) else count_attempt c (fresh now) now
]

unfoldable pub reserve_at :
    LoginThrottle → Text → Instant → LoginThrottle × Result (Unit {0}) Duration
unfolding attempt is_stale
reserve_at t key now =
    let kept = retain (λ attempts. not (is_stale attempts now t.config.window)) t.state in
    let (entry, decision) = attempt t.config (or_insert (kept key) now) now in
    (record t { state = insert key entry kept }, decision)

unfoldable pub record_success : LoginThrottle → Text → LoginThrottle
record_success t key = record t { state = remove key t.state }
