-- ===== src/Npl/Mutex/Laws.antt =====
-- Mutual exclusion and recursion of the mutexes, over any interleaving of contexts.
use nimble_rs.Base.{
  ℕ, ◌+◌, ◌-◌, ◌^◌, ◌≤◌, ◌<◌, ◌≡◌, ◌≢◌, refl, subst, true, List, [], ◌∷◌, arith, ◌==◌,
  if◌then◌else◌, length, update,
}
use nimble_rs.Npl.Sem.{ok}
use nimble_rs.Npl.Mutex.{Mutex, mutex_init, try_lock, mutex_release}

-- One call by one context.
pub data Call : Type 0 where
  lock : ℕ → Call
  release : ℕ → Call

-- The mutex, and how many locks each context has taken and not given back.
pub record Ledger : Type 0 where
  pub mutex : Mutex
  pub held : ℕ → ℕ

abbrev pub start : Ledger
start = record { mutex = mutex_init; held = λ _. 0 }

unfoldable pub call : Call → Ledger → Ledger
call (lock me) l =
    let (got, m) = try_lock me l.mutex in
    record { mutex = m; held = if got then update l.held me (l.held me + 1) else l.held }
call (release me) l =
    let (code, m) = mutex_release me l.mutex in
    record { mutex = m; held = elim code [ ok ↦ update l.held me (l.held me - 1) | _ ↦ l.held ] }

unfoldable pub run : List Call → Ledger → Ledger
run [] l = l
run (c ∷ cs) l = run cs (call c l)

abbrev pub caller : Call → ℕ
caller (lock me) = me
caller (release me) = me

-- Every call is made by a context with an identity.
abbrev pub Identified : List Call → Type 0
Identified [] = Unit
Identified (c ∷ cs) = (caller c ≢ 0) × Identified cs

-- The owner holds as many locks as the count says, and nobody else holds any.
pub record IsOwned (l : Ledger) (most : ℕ) : Type 0 where
  pub free : l.mutex.owner ≡ 0 → l.mutex.count ≡ 0
  pub taken : l.mutex.owner ≢ 0 → 0 < l.mutex.count
  pub few : l.mutex.count ≤ most
  pub held : (p : ℕ) → p ≢ 0 → l.held p ≡ (if l.mutex.owner == p then l.mutex.count else 0)

call-IsOwned :
    (c : Call) (l : Ledger) (most : ℕ)
    → caller c ≢ 0
    → most + 1 < 2 ^ 32
    → IsOwned l most
    → IsOwned (call c l) (most + 1)
unfolding call try_lock mutex_release
call-IsOwned (lock me) l most some_me small i = record {
  free = ground (arith, i.free, i.taken, i.few);
  taken = ground (arith, i.free, i.taken, i.few);
  few = ground (arith, i.few);
  held = λ p ne. ground (arith, i.held p ne, i.held me some_me, i.free, i.few);
}
call-IsOwned (release me) l most some_me small i = record {
  free = ground (arith, i.free, i.taken, i.few);
  taken = ground (arith, i.free, i.taken, i.few);
  few = ground (arith, i.few);
  held = λ p ne. ground (arith, i.held p ne, i.held me some_me, i.free, i.few);
}

pub run-IsOwned :
    (cs : List Call) (l : Ledger) (most : ℕ)
    → Identified cs
    → most + length cs < 2 ^ 32
    → IsOwned l most
    → IsOwned (run cs l) (most + length cs)
unfolding run
run-IsOwned [] l most who small i = record {
  free = i.free;
  taken = i.taken;
  few = omega (arith, i.few);
  held = i.held;
}
run-IsOwned (c ∷ cs) l most who small i =
    subst (λ k. IsOwned (run cs (call c l)) k) (omega arith)
      (run-IsOwned cs (call c l) (most + 1) who.1 (omega arith)
        (call-IsOwned c l most who.0 (omega arith) i))

start-IsOwned : IsOwned start 0
unfolding mutex_init
start-IsOwned = record {
  free = λ _. refl;
  taken = λ h. absurd (h refl);
  few = omega arith;
  held = λ p ne. ground arith;
}

module _ (cs : List Call) (who : Identified cs) (small : length cs < 2 ^ 32) where
  after : IsOwned (run cs start) (0 + length cs)
  after = run-IsOwned cs start 0 who (omega arith) start-IsOwned

  -- After any interleaving of fewer than 2 ^ 32 locks and releases by contexts with an identity, two
  -- contexts that hold the mutex are one.
  pub mutual_exclusion :
      (p q : ℕ) → p ≢ 0 → q ≢ 0 → 0 < (run cs start).held p → 0 < (run cs start).held q → p ≡ q
  mutual_exclusion p q some_p some_q hp hq =
      ground (arith, after.held p some_p, after.held q some_q)

  -- If no other context holds the mutex, a context can lock it, for the first time or again, and
  -- the count of the mutex is the number of locks that this context holds.
  pub try_lock_again :
      (p : ℕ)
      → p ≢ 0
      → ((q : ℕ) → q ≢ 0 → q ≢ p → (run cs start).held q ≡ 0)
      → ((try_lock p (run cs start).mutex).0 ≡ true)
        × ((run cs start).held p ≡ (run cs start).mutex.count)
  unfolding try_lock
  try_lock_again p some_p alone =
      let o = (run cs start).mutex.owner in
      ground (arith, after.held p some_p, after.held o, after.taken, after.free, alone o)
