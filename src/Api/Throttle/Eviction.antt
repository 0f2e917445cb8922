-- ===== src/Api/Throttle/Eviction.antt =====
-- The eviction of stale entries against a throttle that keeps every entry for ever.
use otdel.Prelude.{
  ◌≤◌, ◌≡◌, refl, sym, ap, ◌∙◌, subst, inl, inr, some, List, [], ◌∷◌, arith, Bool-cases, Result,
}
use otdel.Prelude.Text.{Text, text_eq, text_eq_iff}
use otdel.Prelude.Table.{Table, insert}
use otdel.Api.Throttle.{
  Instant, Duration, ThrottleConfig, Attempts, LoginThrottle, attempt, reserve_at, or_insert,
}
use otdel.Api.Throttle.Burst.{Events}
use otdel.Api.Throttle.Clients.{
  decide_all, decide, decide-keep, reserve_at-decision, reserve_at_self, reserve_at-others,
}

-- The same rules with no eviction.
reserve_kept :
    ThrottleConfig → Table Attempts → Text → Instant → Table Attempts × Result (Unit {0}) Duration
reserve_kept c m key now =
    let (entry, decision) = attempt c (or_insert (m key) now) now in (insert key entry m, decision)

-- The answers to a sequence of attempts.
pub decisions : LoginThrottle → Events → List (Result (Unit {0}) Duration)
decisions t [] = []
decisions t ((key, now) ∷ es) =
    let (t', decision) = reserve_at t key now in decision ∷ decisions t' es

pub decisions_kept : ThrottleConfig → Table Attempts → Events → List (Result (Unit {0}) Duration)
unfolding reserve_kept
decisions_kept c m [] = []
decisions_kept c m ((key, now) ∷ es) =
    let (m', decision) = reserve_kept c m key now in decision ∷ decisions_kept c m' es

-- The attempts come in the order of their times, from a time on.
abbrev pub InOrder : Instant → Events → Type 0
InOrder start [] = Unit
InOrder start ((key, now) ∷ es) = (start ≤ now) × InOrder now es

-- Two tables that give the same answers from a time on.
abbrev Agree : ThrottleConfig → Instant → Table Attempts → Table Attempts → Type 0
Agree c start m m' =
    (key : Text) (later : Instant)
    → start ≤ later
    → decide c (m key) later ≡ decide c (m' key) later

Agree-step :
    (t : LoginThrottle) (m : Table Attempts) (start now : Instant) (key : Text)
    → start ≤ now
    → Agree t.config start t.state m
    → Agree t.config now (reserve_at t key now).0.state (reserve_kept t.config m key now).0
unfolding reserve_kept
Agree-step t m start now key h agree k later l = elim (Bool-cases (text_eq key k)) [
  | inl same ↦
      let here : key ≡ k = (text_eq_iff key k).0 same in
      let entry : (reserve_at t key now).0.state k ≡ some (decide t.config (t.state key) now).0 =
        subst (λ q. (reserve_at t key now).0.state q ≡ some (decide t.config (t.state key) now).0)
          here (reserve_at_self t now key) in
      rw (same, entry, decide_all t.config (m key) now)
        (ap (λ r. decide t.config (some r.0) later) (agree key now h))
  | inr other ↦
      rw (other, reserve_at-others t now key k (λ e. cc (sym other ∙ (text_eq_iff key k).1 e)))
        (decide-keep t.config (t.state k) now later l ∙ agree k later (omega arith))
]

decisions-Agree :
    (t : LoginThrottle) (m : Table Attempts) (start : Instant) (es : Events)
    → InOrder start es
    → Agree t.config start t.state m
    → decisions t es ≡ decisions_kept t.config m es
unfolding decisions decisions_kept reserve_at
decisions-Agree t m start [] o agree = refl
decisions-Agree t m start ((key, now) ∷ es) (h, o) agree =
    let answer =
      reserve_at-decision t now key
      ∙ ap (λ r. r.1) (agree key now h)
      ∙ ap (λ r. r.1) (sym (decide_all t.config (m key) now)) in
    let rest =
      decisions-Agree (reserve_at t key now).0 (reserve_kept t.config m key now).0 now es o
        (Agree-step t m start now key h agree) in
    λ i. answer i ∷ rest i

-- For attempts that come in the order of their times, reserve_at, which drops all stale entries at
-- each attempt, gives the same answers in the same order as the rules without any dropping.
pub reserve_at_eviction :
    (t : LoginThrottle) (start : Instant) (es : Events)
    → InOrder start es
    → decisions t es ≡ decisions_kept t.config t.state es
reserve_at_eviction t start es o = decisions-Agree t t.state start es o (λ key later h. refl)
