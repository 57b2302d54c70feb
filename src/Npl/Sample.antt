-- ===== src/Npl/Sample.antt =====
-- A store of the porting layer, nimble-rs/src/npl.rs, with a queue of two events and two timers, for the
-- tests.
use nimble_rs.Base.{refl, ◌||◌, some, false, [], ◌∷◌, ◌==◌, if◌then◌else◌, arith}
use nimble_rs.Npl.Store.{Store}
use nimble_rs.Npl.Eventq.Defs.{IsQueue}
use nimble_rs.Npl.Timers.Defs.{IsTimers}

-- Events 1 and 2 wait in queue 7, event 3 in none; callouts 100 and 200 are active, due at 10 and
-- 20, and fire to queue 7.
abbrev pub busy : Store
busy = record {
  event = λ p. record {
    next = if p == 1 then 2 else 0;
    func = some 70;
    arg = 0;
    queued = p == 1 || p == 2;
  };
  eventq = λ q. record { init_tag = 1; head = 1; tail = 2; waker = some 5 };
  callout = λ p. record {
    next = if p == 100 then 200 else 0;
    deadline = if p == 100 then 10 else 20;
    active = p == 100 || p == 200;
    evq = 7;
  };
  timers = record { head = 100; waker = some 6 };
  woken = [];
}

pub busy-IsQueue : IsQueue busy 7 (1 ∷ 2 ∷ [])
busy-IsQueue = record {
  init = ground arith;
  chain = (refl, ground arith, (refl, ground arith, refl));
  tail = refl;
  distinct = (refl, (refl, tt));
  queued = λ p h. ground arith;
}

pub busy-IsTimers : IsTimers busy (100 ∷ 200 ∷ [])
busy-IsTimers = record {
  chain = (refl, ground arith, (refl, ground arith, refl));
  distinct = (refl, (refl, tt));
  sorted = (λ y h. ground arith, (λ y h. ground arith, tt));
  active = λ p. ground arith;
}

-- The same timers with an empty queue and no event queued.
abbrev pub asleep : Store
asleep = record {
  event = λ p. record { next = 0; func = some 70; arg = 0; queued = false };
  eventq = λ q. record { init_tag = 1; head = 0; tail = 0; waker = some 5 };
  callout = busy.callout;
  timers = record { head = 100; waker = some 6 };
  woken = [];
}

pub asleep-IsQueue : IsQueue asleep 7 []
asleep-IsQueue = record {
  init = ground arith;
  chain = refl;
  tail = refl;
  distinct = tt;
  queued = λ p h. absurd (ground arith);
}

pub asleep-IsTimers : IsTimers asleep (100 ∷ 200 ∷ [])
asleep-IsTimers = record {
  chain = busy-IsTimers.chain;
  distinct = busy-IsTimers.distinct;
  sorted = busy-IsTimers.sorted;
  active = busy-IsTimers.active;
}
