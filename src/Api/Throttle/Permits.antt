-- ===== src/Api/Throttle/Permits.antt =====
-- crates/otdel-api/src/auth/throttle.rs: `hash_permit`, and how login in routes/session.rs uses it.
-- Any number of logins run at once; a client that goes away drops the future of its request.
use otdel.Prelude.{ℕ, ◌+◌, ◌-◌, ◌≤◌, ◌≡◌, ap, List, [], ◌∷◌, ◌++◌, arith}

-- `MAX_CONCURRENT_PASSWORD_HASHES`
abbrev pub max_concurrent_password_hashes : ℕ
max_concurrent_password_hashes = 2

-- Where a login stands: it waits for a permit; it has one that its future owns; its blocking task
-- owns the permit and hashes, with the request still there or dropped; or it is past the hash or gone.
pub data Phase : Type 0 where
  waiting granted hashing detached over : Phase

-- One move of one login, with the permits that the semaphore has before and after it.
pub data Move (free : ℕ) : Phase → ℕ → Phase → Type 0 where
  acquire : {rest : ℕ} → free ≡ rest + 1 → Move free waiting rest granted
  spawn : Move free granted free hashing
  finish : {more : ℕ} → more ≡ free + 1 → Move free hashing more over
  finish_detached : {more : ℕ} → more ≡ free + 1 → Move free detached more over
  leave_queue : Move free waiting free over
  drop_granted : {more : ℕ} → more ≡ free + 1 → Move free granted more over
  drop_hashing : Move free hashing free detached

pub record Logins : Type 0 where
  pub free : ℕ
  pub phases : List Phase

-- `LoginThrottle::new`
abbrev pub no_logins : Logins
no_logins = record { free = max_concurrent_password_hashes; phases = [] }

pub data Step (s : Logins) : Logins → Type 0 where
  arrive : Step s (record s { phases = waiting ∷ s.phases })
  move :
      (before after : List Phase) {from to : Phase} {free : ℕ}
      → s.phases ≡ before ++ from ∷ after
      → Move s.free from free to
      → Step s (record { free = free; phases = before ++ to ∷ after })

pub data Reach : Logins → Type 0 where
  start : Reach no_logins
  later : {s s' : Logins} → Reach s → Step s s' → Reach s'

-- Who owns a permit, and whose hash runs.
abbrev pub owns : Phase → ℕ
owns granted = 1
owns hashing = 1
owns detached = 1
owns waiting = 0
owns over = 0

abbrev pub hashes : Phase → ℕ
hashes hashing = 1
hashes detached = 1
hashes granted = 0
hashes waiting = 0
hashes over = 0

abbrev pub total : (Phase → ℕ) → List Phase → ℕ
total w [] = 0
total w (p ∷ ps) = w p + total w ps

total-append : (w : Phase → ℕ) (ps qs : List Phase) → total w (ps ++ qs) ≡ total w ps + total w qs
total-append w [] qs = omega arith
total-append w (p ∷ ps) qs = omega (arith, total-append w ps qs)

hashes-owns : (ps : List Phase) → total hashes ps ≤ total owns ps
hashes-owns [] = omega arith
hashes-owns (p ∷ ps) = ground (arith, hashes-owns ps)

Move-owns : {free free' : ℕ} {p p' : Phase} → Move free p free' p' → free' + owns p' ≡ free + owns p
Move-owns (acquire h) = omega arith
Move-owns spawn = omega arith
Move-owns (finish h) = omega arith
Move-owns (finish_detached h) = omega arith
Move-owns leave_queue = omega arith
Move-owns (drop_granted h) = omega arith
Move-owns drop_hashing = omega arith

Step-owns :
    {s s' : Logins} → Step s s' → s'.free + total owns s'.phases ≡ s.free + total owns s.phases
Step-owns arrive = omega arith
Step-owns {s} (move before after {from} {to} {free} e m) = omega (
  arith,
  Move-owns m,
  ap (total owns) e,
  total-append owns before (from ∷ after),
  total-append owns before (to ∷ after),
)

Reach-owns : {s : Logins} → Reach s → s.free + total owns s.phases ≡ max_concurrent_password_hashes
Reach-owns start = omega arith
Reach-owns (later r st) = omega (arith, Step-owns st, Reach-owns r)

-- In every reachable state at most two hashes run, also those whose client has gone away; and the
-- permits that no login owns are free.
pub Reach-hashes :
    {s : Logins}
    → Reach s
    → (total hashes s.phases ≤ max_concurrent_password_hashes)
      × (s.free ≡ max_concurrent_password_hashes - total owns s.phases)
Reach-hashes {s} r = omega (arith, Reach-owns r, hashes-owns s.phases)
