-- ===== src/Api/Throttle/Burst.antt =====
-- A burst of sign-in attempts from many clients, in the order in which the throttle's mutex admits
-- them. Their times may be out of order: each request reads the clock before it takes the mutex.
use otdel.Prelude.{
  ℕ, ◌+◌, ◌-◌, ◌≤◌, ◌<◌, min, ◌≡◌, refl, sym, ◌∙◌, inl, inr, false, not, Option, none, some, List,
  [], ◌∷◌, arith, ltb, if◌then◌else◌, Bool-cases, All, Result, ok, err,
}
use otdel.Prelude.Text.{Text, text_eq, text_eq_iff, text_eq_refl}
use otdel.Prelude.Table.{Table, retain}
use otdel.Api.Throttle.{
  Instant, Duration, ThrottleConfig, Attempts, LoginThrottle, is_stale, count_attempt, attempt,
  reserve_at, or_insert,
}

abbrev pub Events : Type 0
Events = List (Text × Instant)

-- How many of the attempts come from the client.
pub attempts_of : Text → Events → ℕ
attempts_of k [] = 0
attempts_of k ((j, now) ∷ es) = (if text_eq j k then 1 else 0) + attempts_of k es

abbrev one_if_ok {ℓ} : {E : Type ℓ} → Result (Unit {0}) E → ℕ
one_if_ok (ok u) = 1
one_if_ok (err e) = 0

-- How many of the client's attempts may go on to the password check.
pub admitted : Text → LoginThrottle → Events → ℕ
admitted k t [] = 0
admitted k t ((j, now) ∷ es) =
    let (t', decision) = reserve_at t j now in
    (if text_eq j k then one_if_ok decision else 0) + admitted k t' es

reserve_at-config :
    (t : LoginThrottle) (key : Text) (now : Instant) → (reserve_at t key now).0.config ≡ t.config
unfolding reserve_at
reserve_at-config t key now = refl

module _ (c : ThrottleConfig) (start d : Instant) where
  -- Every event lies in the interval from `start` of length `d`.
  abbrev pub Within : Events → Type 0
  Within = All (λ (j, now). (start ≤ now) × (now ≤ start + d))

  -- A lock lies behind the interval, and is set only when the limit is reached.
  abbrev LockHolds : ℕ → Option Instant → Type 0
  LockHolds n none = Unit
  LockHolds n (some until) = (n ≡ c.max_failures) × (start + d < until)

  -- The entry of a client of which `n` attempts have been admitted in the interval.
  abbrev Counted : ℕ → Option Attempts → Type 0
  Counted n none = n ≡ 0
  Counted n (some a) =
      (a.started ≡ n)
      × (n ≤ c.max_failures)
      × (start ≤ a.window_started)
      × LockHolds n a.locked_until

  abbrev Decided : ℕ → Attempts × Result (Unit {0}) Duration → Type 0
  Decided n r =
      Counted (min (n + 1) c.max_failures) (some r.0)
      × (one_if_ok r.1 ≡ (if ltb n c.max_failures then 1 else 0))

  module _ (now : Instant) (in_window : d ≤ c.window) (in_lockout : d < c.lockout)
      (after : start ≤ now) (before : now ≤ start + d) where
    count_attempt-Decided :
        (n : ℕ) (a : Attempts)
        → a.locked_until ≡ none
        → Counted n (some a)
        → Decided n (count_attempt c a now)
    unfolding count_attempt
    count_attempt-Decided n a e h = ground arith

    attempt-Decided : (n : ℕ) (a : Attempts) → Counted n (some a) → Decided n (attempt c a now)
    unfolding attempt
    attempt-Decided n a h = ground arith

    kept-Counted :
        (n : ℕ) (m : Table Attempts) (k : Text)
        → Counted n (m k)
        → Counted n (retain (λ a. not (is_stale a now c.window)) m k)
    unfolding is_stale
    kept-Counted n m k h = ground arith

    or_insert-Counted :
        (n : ℕ) (o : Option Attempts) → Counted n o → Counted n (some (or_insert o now))
    or_insert-Counted n none h = (sym h, omega arith, after, tt)
    or_insert-Counted n (some a) h = h

    -- The client's own attempt is counted at once, and passes while the limit is not reached.
    reserve_at-own :
        (t : LoginThrottle) (k : Text) (n : ℕ)
        → t.config ≡ c
        → Counted n (t.state k)
        → Counted (min (n + 1) c.max_failures) ((reserve_at t k now).0.state k)
          × (one_if_ok (reserve_at t k now).1 ≡ (if ltb n c.max_failures then 1 else 0))
    unfolding reserve_at
    reserve_at-own t k n e h =
        rw (e, text_eq_refl)
          (attempt-Decided n _ (or_insert-Counted n _ (kept-Counted n t.state k h)))

    -- Another client's attempt leaves the count alone.
    reserve_at-other :
        (t : LoginThrottle) (j k : Text) (n : ℕ)
        → t.config ≡ c
        → text_eq j k ≡ false
        → Counted n (t.state k)
        → Counted n ((reserve_at t j now).0.state k)
    unfolding reserve_at
    reserve_at-other t j k n e ne h = rw (e, ne) (kept-Counted n t.state k h)

  admitted_from :
      (k : Text) (t : LoginThrottle) (n : ℕ) (es : Events)
      → d ≤ c.window
      → d < c.lockout
      → t.config ≡ c
      → Counted n (t.state k)
      → n ≤ c.max_failures
      → Within es
      → admitted k t es ≡ min (attempts_of k es) (c.max_failures - n)
  unfolding admitted attempts_of
  admitted_from k t n [] w l e h le _ = omega arith
  admitted_from k t n ((j, now) ∷ es) w l e h le ((after, before), rest) =
      elim (Bool-cases (text_eq j k)) [
        | inl same ↦
            let own = reserve_at-own now w l after before t k n e h in
            rw ((text_eq_iff j k).0 same, text_eq_refl)
              (ground (
                arith,
                own.1,
                admitted_from k (reserve_at t k now).0 (min (n + 1) c.max_failures) es w l
                    (reserve_at-config t k now ∙ e) own.0 (omega arith) rest,
              ))
        | inr differ ↦ rw differ (
            omega (
              arith,
              admitted_from k (reserve_at t j now).0 n es w l (reserve_at-config t j now ∙ e)
                  (reserve_at-other now w l after before t j k n e differ h) le rest,
            ))
      ]

-- Of a burst that lasts no longer than the window, and less than a lockout, exactly the first
-- `max_failures` attempts of a client pass, whatever other clients do and in whatever order the
-- requests that run at the same time are served. The client has no entry at the start.
pub admitted_burst :
    (t : LoginThrottle) (k : Text) (start d : Instant) (es : Events)
    → d ≤ t.config.window
    → d < t.config.lockout
    → t.state k ≡ none
    → Within t.config start d es
    → admitted k t es ≡ min (attempts_of k es) t.config.max_failures
admitted_burst t k start d es w l e within =
    omega (arith, admitted_from t.config start d k t 0 es w l refl (rw e refl) (omega arith) within)
