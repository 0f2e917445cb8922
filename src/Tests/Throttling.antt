-- ===== src/Tests/Throttling.antt =====
-- A burst of sign-in attempts from two addresses.
use otdel.Prelude.{◌-◌, ◌≤◌, ◌<◌, min, ◌≡◌, refl, [], ◌∷◌, arith, ltb, if◌then◌else◌, ok, err}
use otdel.Prelude.Text.{Text, codes, text_eq}
use otdel.Prelude.Table.{empty}
use otdel.Api.Throttle.{ThrottleConfig, LoginThrottle, reserve_at}
use otdel.Api.Throttle.Burst.{Events, admitted, attempts_of, admitted_burst}
use otdel.Api.Throttle.Eviction.{decisions, decisions_kept, reserve_at_eviction}
use otdel.Api.Throttle.Permits.{
  max_concurrent_password_hashes, waiting, granted, hashing, detached, acquire, spawn, drop_hashing,
  Logins, arrive, move, Reach, later, owns, hashes, total, Reach-hashes,
}
use otdel.Api.Throttle.Clients.{reserve_at_independent, reserve_at_retry}

abbrev limits : ThrottleConfig
limits = record { max_failures = 2; window = 900; lockout = 300 }

abbrev start : LoginThrottle
start = record { config = limits; state = empty }

abbrev a : Text
a = codes "a"

abbrev b : Text
b = codes "b"

abbrev burst : Events
burst = (a, 1000) ∷ (b, 1001) ∷ (a, 999) ∷ (a, 1002) ∷ (a, 1001) ∷ []

-- The source's test: the third attempt is refused for the time of a lockout.
locked : LoginThrottle
unfolding reserve_at
locked = (reserve_at (reserve_at start a 1000).0 a 1000).0

locked_positive : 0 < locked.config.max_failures
unfolding locked reserve_at
locked_positive = omega arith

third_refused : (reserve_at locked a 1000).1 ≡ err 300
unfolding locked reserve_at text_eq
third_refused = refl

admitted_burst_example : admitted a start burst ≡ min (attempts_of a burst) 2
admitted_burst_example =
    admitted_burst start a 990 20 burst (omega arith) (omega arith) refl (omega arith)

reserve_at_independent_example :
    let t = (reserve_at start a 1000).0 in
    ((reserve_at t b 1001).1 ≡ (reserve_at start b 1001).1)
    × ((reserve_at t b 1001).0.state b ≡ (reserve_at start b 1001).0.state b)
reserve_at_independent_example =
    reserve_at_independent start a b 1000 1001 (λ e. ground arith) (omega arith)

reserve_at_retry_example :
    (reserve_at (reserve_at locked a 1000).0 a 1200).1 ≡ (if ltb 1200 1300 then err 100 else ok tt)
reserve_at_retry_example =
    reserve_at_retry locked a 1000 1200 300 locked_positive (omega arith) third_refused

-- A burst in the order of time, with a pause after which the first entry is stale.
abbrev in_time : Events
in_time = (a, 1000) ∷ (a, 1001) ∷ (b, 2500) ∷ (a, 2501) ∷ []

reserve_at_eviction_example : decisions start in_time ≡ decisions_kept limits empty in_time
reserve_at_eviction_example = reserve_at_eviction start 1000 in_time (omega arith)

-- Three logins; the first hashes for a client that is gone.
abbrev three : Logins
three = record { free = 1; phases = waiting ∷ waiting ∷ detached ∷ [] }

three_reached : Reach three
three_reached =
    later
      (later
        (later
          (later
            (later (later Reach.start arrive)
              (move [] [] {from = waiting} {to = granted} {free = 1} refl (acquire refl)))
            (move [] [] {from = granted} {to = hashing} {free = 1} refl spawn))
          (move [] [] {from = hashing} {to = detached} {free = 1} refl drop_hashing))
        arrive)
      arrive

Reach-hashes_example :
    (total hashes three.phases ≤ max_concurrent_password_hashes)
    × (three.free ≡ max_concurrent_password_hashes - total owns three.phases)
Reach-hashes_example = Reach-hashes three_reached
