-- ===== src/Api/Throttle/Clients.antt =====
-- What one client's attempts mean for another client, and what a refused client can expect.
use otdel.Prelude.{
  ◌+◌, ◌-◌, ◌≤◌, ◌<◌, ◌≡◌, refl, sym, ◌∙◌, ◌≢◌, false, not, Option, none, some, arith, ltb,
  if◌then◌else◌, Result, ok, err,
}
use otdel.Prelude.Text.{Text, text_eq, text_eq_iff, text_eq_refl}
use otdel.Prelude.Table.{Table, retain}
use otdel.Api.Throttle.{
  Instant, Duration, ThrottleConfig, Attempts, LoginThrottle, is_stale, count_attempt, attempt,
  reserve_at, or_insert, record_success,
}

-- The entry that `retain` leaves, and the decision on it.
pub keep : ThrottleConfig → Option Attempts → Instant → Option Attempts
keep c none now = none
keep c (some a) now = if not (is_stale a now c.window) then some a else none

pub decide : ThrottleConfig → Option Attempts → Instant → Attempts × Result (Unit {0}) Duration
unfolding keep
decide c o now = attempt c (or_insert (keep c o now) now) now

retain-keep :
    (c : ThrottleConfig) (m : Table Attempts) (k : Text) (now : Instant)
    → retain (λ a. not (is_stale a now c.window)) m k ≡ keep c (m k) now
unfolding keep
retain-keep c m k now = ground arith

module _ (t : LoginThrottle) (now : Instant) where
  pub reserve_at-decision :
      (k : Text) → (reserve_at t k now).1 ≡ (decide t.config (t.state k) now).1
  unfolding reserve_at decide
  reserve_at-decision k = rw (retain-keep t.config t.state k now)

  pub reserve_at_self :
      (k : Text) → (reserve_at t k now).0.state k ≡ some (decide t.config (t.state k) now).0
  unfolding reserve_at decide
  reserve_at_self k = rw (text_eq_refl, retain-keep t.config t.state k now)

  pub reserve_at-others :
      (j k : Text) → j ≢ k → (reserve_at t j now).0.state k ≡ keep t.config (t.state k) now
  unfolding reserve_at
  reserve_at-others j k differ =
      let apart : text_eq j k ≡ false = ground (arith, text_eq_iff j k) in
      rw apart (retain-keep t.config t.state k now)

  pub reserve_at-config : (k : Text) → (reserve_at t k now).0.config ≡ t.config
  unfolding reserve_at
  reserve_at-config k = refl

-- Dropping an entry that was stale earlier changes no later decision.
pub decide-keep :
    (c : ThrottleConfig) (o : Option Attempts) (now later : Instant)
    → now ≤ later
    → decide c (keep c o now) later ≡ decide c o later
unfolding decide is_stale
decide-keep c none now later h = refl
decide-keep c (some a) now later h = ground arith

-- Dropping an entry that is stale changes not even the decision on it.
pub decide_all :
    (c : ThrottleConfig) (o : Option Attempts) (now : Instant)
    → attempt c (or_insert o now) now ≡ decide c o now
unfolding decide keep attempt count_attempt is_stale
decide_all c none now = refl
decide_all c (some a) now = ground arith

-- An attempt of one client changes neither the later decision on another client nor that client's
-- entry after it.
pub reserve_at_independent :
    (t : LoginThrottle) (j k : Text) (now later : Instant)
    → j ≢ k
    → now ≤ later
    → let t' = (reserve_at t j now).0 in
      ((reserve_at t' k later).1 ≡ (reserve_at t k later).1)
      × ((reserve_at t' k later).0.state k ≡ (reserve_at t k later).0.state k)
reserve_at_independent t j k now later differ h =
    let same = decide-keep t.config (t.state k) now later h in
    (
      rw (
        reserve_at-decision,
        reserve_at-decision,
        reserve_at-config,
        reserve_at-others t now j k differ,
        same,
      ),
      rw (
        reserve_at_self,
        reserve_at_self,
        reserve_at-config,
        reserve_at-others t now j k differ,
        same,
      ),
    )

decide-none :
    (c : ThrottleConfig) (now : Instant) → 0 < c.max_failures → (decide c none now).1 ≡ ok tt
unfolding decide attempt count_attempt
decide-none c now h = ground arith

-- A sign-in that succeeded clears the client's count and lock: its next attempt passes, whatever
-- came before, and no other client's entry changes.
pub record_success_clears :
    (t : LoginThrottle) (k : Text) (now : Instant)
    → 0 < t.config.max_failures
    → ((reserve_at (record_success t k) k now).1 ≡ ok tt)
      × ((j : Text) → k ≢ j → (record_success t k).state j ≡ t.state j)
unfolding record_success
record_success_clears t k now h = (
  rw (reserve_at-decision, text_eq_refl) (decide-none t.config now h),
  λ j differ. ground (arith, text_eq_iff k j),
)

decide-retry :
    (c : ThrottleConfig) (o : Option Attempts) (now later : Instant) (wait : Duration)
    → 0 < c.max_failures
    → now ≤ later
    → (decide c o now).1 ≡ err wait
    → (decide c (some (decide c o now).0) later).1
      ≡ (if ltb later (now + wait) then err (now + wait - later) else ok tt)
unfolding decide attempt count_attempt is_stale
decide-retry c none now later wait pos h e = ground arith
decide-retry c (some a) now later wait pos h e = ground arith

-- The wait that a refused client is told is exact: as long as it has not passed every attempt is
-- refused with the rest of it, and from then on an attempt passes.
pub reserve_at_retry :
    (t : LoginThrottle) (k : Text) (now later : Instant) (wait : Duration)
    → 0 < t.config.max_failures
    → now ≤ later
    → (reserve_at t k now).1 ≡ err wait
    → (reserve_at (reserve_at t k now).0 k later).1
      ≡ (if ltb later (now + wait) then err (now + wait - later) else ok tt)
reserve_at_retry t k now later wait pos h e =
    rw (reserve_at-decision, reserve_at-config, reserve_at_self)
      (decide-retry t.config (t.state k) now later wait pos h
        (sym (reserve_at-decision t now k) ∙ e))
