-- ===== src/Npl/Examples.antt =====
-- The theorems on the porting layer at concrete stores, and tests of its operations.
use nimble_rs.Base.{
  ◌/◌, ◌*◌, ℕ, ◌+◌, ◌-◌, ◌^◌, ◌≤◌, ◌<◌, ◌≡◌, ◌≢◌, refl, Bool, true, false, none, some, List, [],
  ◌∷◌, arith,
}
use nimble_rs.Npl.Sample.{busy, busy-IsQueue, busy-IsTimers}
use nimble_rs.Npl.Store.{Ptr, Store}
use nimble_rs.Npl.Eventq.{eventq_poll, eventq_put, eventq_try_pop, eventq_remove}
use nimble_rs.Npl.Eventq.Poll.{eventq_poll-put}
use nimble_rs.Npl.Blocking.{time_delay}
use nimble_rs.Npl.Eventq.Defs.{IsQueue}
use nimble_rs.Npl.Eventq.Fifo.{eventq_put-append, eventq_try_pop-cons}
use nimble_rs.Npl.Eventq.Remove.{eventq_remove-erase}
use nimble_rs.Npl.Timers.{callout_reset, callout_stop, timers_fire_due, callout_remaining_ticks}
use nimble_rs.Npl.Timers.Defs.{IsTimers}
use nimble_rs.Npl.Timers.Reset.{callout_reset-insert, callout_stop-erase}
use nimble_rs.Npl.Timers.Fire.{Fired, timers_fire_due-Fired}
use nimble_rs.Npl.Wait.{Env, wait_until, forever, expired, deadline}
use nimble_rs.Npl.Wait.Laws.{wait_until_ends, rounds}
use nimble_rs.Npl.Parker
use nimble_rs.Npl.Parker.{spin_parker}
use nimble_rs.Npl.Sem
use nimble_rs.Npl.Sem.{Sem, sem_pend, sem_release}
use nimble_rs.Npl.Sem.Laws.{Outcome, sem_pend-Outcome, sem_pend_pumped}
use nimble_rs.Npl.Mutex.{try_lock, mutex_release, mutex_init}
use nimble_rs.Npl.Mutex.Laws.{Call, call, lock, release, run, start, mutual_exclusion}
use nimble_rs.Npl.Critical.{enter_critical, is_in_critical, acquired, released}
use nimble_rs.Npl.Critical.Laws.{enters, exits, idle, enters-exits}
use nimble_rs.Npl.Time.{time_get}
use nimble_rs.Npl.Time.Laws.{callout_remaining_ticks_wrapped}

eventq_put-append_example :
    IsQueue (eventq_put 7 3 busy) 7 (1 ∷ 2 ∷ 3 ∷ [])
    × (((eventq_put 7 3 busy).eventq 7).waker ≡ none)
    × ((eventq_put 7 3 busy).woken ≡ 5 ∷ [])
eventq_put-append_example =
    eventq_put-append {s = busy} {evq = 7} {ev = 3} (ground arith) refl (1 ∷ 2 ∷ []) busy-IsQueue

eventq_try_pop-cons_example :
    ((eventq_try_pop 7 busy).0 ≡ 1)
    × IsQueue (eventq_try_pop 7 busy).1 7 (2 ∷ [])
    × (((eventq_try_pop 7 busy).1.event 1).queued ≡ false)
eventq_try_pop-cons_example = eventq_try_pop-cons {s = busy} {evq = 7} 1 (2 ∷ []) busy-IsQueue

eventq_remove-erase_example :
    (s' : Store) × (eventq_remove 3 7 2 busy ≡ some s')
    × IsQueue s' 7 (1 ∷ [])
    × ((s'.event 2).queued ≡ false)
    × (s'.callout ≡ busy.callout)
    × (s'.timers ≡ busy.timers)
eventq_remove-erase_example =
    eventq_remove-erase busy 7 2 3 (1 ∷ 2 ∷ []) busy-IsQueue refl (omega arith)

callout_reset-insert_example :
    (t : Store) × (callout_reset 3 5 100 50 busy ≡ some t)
    × IsTimers t (200 ∷ 100 ∷ [])
    × ((t.callout 100).deadline ≡ 55)
    × ((p : Ptr) → p ≢ 100 → (t.callout p).deadline ≡ (busy.callout p).deadline)
    × (t.timers.waker ≡ none)
    × (t.woken ≡ 6 ∷ [])
callout_reset-insert_example =
    callout_reset-insert 3 5 busy 100 50 (100 ∷ 200 ∷ []) busy-IsTimers (ground arith) (omega arith)

callout_stop-erase_example :
    (t : Store) × (callout_stop 3 100 busy ≡ some t)
    × IsTimers t (200 ∷ [])
    × ((t.callout 100).active ≡ false)
    × IsQueue t 7 (1 ∷ 2 ∷ [])
callout_stop-erase_example =
    callout_stop-erase 3 0 busy 100 0 (100 ∷ 200 ∷ []) busy-IsTimers (ground arith) (omega arith)
      (1 ∷ 2 ∷ []) (ground arith) busy-IsQueue (omega arith)

timers_fire_due-Fired_example :
    (t : Store) × (timers_fire_due 3 (λ p s. s) 0 (λ i. 15) busy ≡ some t)
    × Fired busy t 7 15 (1 ∷ 2 ∷ []) (100 ∷ 200 ∷ [])
timers_fire_due-Fired_example =
    timers_fire_due-Fired 3 0 15 (λ p s. s) (λ i. 15) busy 7 (100 ∷ 200 ∷ []) (1 ∷ 2 ∷ [])
      (λ j. refl) busy-IsTimers busy-IsQueue (ground arith) (λ p h. refl) (λ p h. ground arith)
      (omega arith)

-- A clock that each park moves on; a poll of the bridge changes nothing.
abbrev ticking : Env ℕ
ticking = record { now = λ s. s; current_waker = 1; pump_manual = λ w s. s; park = λ d s. s + 1 }

never_ready : ℕ → Bool × ℕ
never_ready s = (false, s)

ticking_times_out : wait_until ticking 4 (some 2) never_ready (λ w s. s) 0 ≡ some (false, 2)
unfolding never_ready wait_until expired
ticking_times_out = refl

-- A clock of microseconds, read in milliseconds, under the parker that never sleeps; a poll of the
-- bridge takes 300 microseconds.
abbrev spinning : Env ℕ
unfolding Parker.env spin_parker
spinning = Parker.env (λ s. s / 1000) (λ w s. s + 300) (spin_parker 1)

never_ready_same : (s : ℕ) → s / 1000 ≤ (never_ready s).1 / 1000
unfolding never_ready
never_ready_same s = omega arith

four_rounds : (s : ℕ) → s / 1000 < rounds spinning (some 2) never_ready (λ w t. t) 4 s / 1000
unfolding never_ready spinning
four_rounds s = omega arith

wait_until_ends_example :
    (b : Bool) × (t : ℕ) × (wait_until spinning (2 * 4 + 1) (some 2) never_ready (λ w s. s) 500
      ≡ some (b, t))
unfolding spinning
wait_until_ends_example =
    wait_until_ends spinning (some 2) never_ready (λ w s. s) 2 4 refl never_ready_same four_rounds 2
      0 500 (omega arith)

-- The bridge delivers one token in its poll.
abbrev delivering : Env (Sem × ℕ)
delivering = record {
  now = λ s. s.1;
  current_waker = 1;
  pump_manual = λ w (s, t). (record { count = s.count + 1; waker = s.waker }, t);
  park = λ d (s, t). (s, t + 1);
}

abbrev no_tokens : Sem
no_tokens = record { count = 0; waker = none }

delivered :
    sem_pend delivering 2 100 (no_tokens, 0)
    ≡ some (Sem.ok, (record { count = 0; waker = some 1 }, 0))
delivered = sem_pend_pumped delivering 1 100 none 0 (ground arith) (ground arith)

sem_pend-Outcome_example :
    Outcome delivering
      (deadline 100 0)
      (no_tokens, 0)
      Sem.ok
      (record { count = 0; waker = some 1 }, 0)
    × (100 ≡ forever → Sem.ok ≡ Sem.ok)
sem_pend-Outcome_example =
    sem_pend-Outcome delivering 2 100 (no_tokens, 0) Sem.ok
      (record { count = 0; waker = some 1 }, 0) delivered

-- Context 4 locks twice and releases once, while context 9 tries.
abbrev contended : List Call
contended = lock 4 ∷ lock 9 ∷ lock 4 ∷ release 9 ∷ release 4 ∷ []

contended_held : (run contended start).held 4 ≡ 1
unfolding run call try_lock mutex_release mutex_init
contended_held = refl

contended_other : (q : ℕ) → q ≢ 0 → q ≢ 4 → (run contended start).held q ≡ 0
unfolding run call try_lock mutex_release mutex_init
contended_other q some_q other = ground arith

abbrev first_context : ℕ
first_context = 4

mutual_exclusion_example : first_context ≡ first_context
mutual_exclusion_example =
    mutual_exclusion contended
      (ground arith, (ground arith, (ground arith, (ground arith, (ground arith, tt)))))
      (omega arith) 4 4 (ground arith) (ground arith) (omega (arith, contended_held))
      (omega (arith, contended_held))

enters-exits_example :
    (is_in_critical 4 (enters 2 4 9 (enter_critical 4 77 (idle []))) ≡ true)
    × (exits 3 (enters 2 4 9 (enter_critical 4 77 (idle [])))
        ≡ idle (acquired 77 ∷ released 77 ∷ []))
enters-exits_example = enters-exits 2 4 77 9 [] (ground arith) (omega arith)

-- A callout that is due shortly behind the wrap of the clock.
abbrev late : Store
late = record {
  event = busy.event;
  eventq = busy.eventq;
  callout = λ p. record { next = 0; deadline = 2 ^ 32 + 5; active = true; evq = 7 };
  timers = busy.timers;
  woken = [];
}

callout_remaining_ticks_wrapped_example :
    (callout_remaining_ticks 100 (time_get (2 ^ 32 - 5)) late ≡ 0)
    × (2 ^ 32 - 5 < (late.callout 100).deadline)
callout_remaining_ticks_wrapped_example =
    callout_remaining_ticks_wrapped 100 (2 ^ 32 - 5) late (omega arith) (omega arith)

-- Queue 7 is empty.
abbrev quiet : Store
quiet = record {
  event = λ p. record { next = 0; func = none; arg = 0; queued = false };
  eventq = λ q. record { init_tag = 1; head = 0; tail = 0; waker = none };
  callout = busy.callout;
  timers = busy.timers;
  woken = [];
}

quiet-IsQueue : IsQueue quiet 7 []
quiet-IsQueue = record {
  init = ground arith;
  chain = refl;
  tail = refl;
  distinct = tt;
  queued = λ p h. ground arith;
}

eventq_poll-put_example :
    ((eventq_poll 7 4 quiet).0 ≡ none)
    × ((eventq_put 7 3 (eventq_poll 7 4 quiet).1).woken ≡ 4 ∷ [])
    × ((eventq_poll 7 9 (eventq_put 7 3 (eventq_poll 7 4 quiet).1)).0 ≡ some 3)
eventq_poll-put_example = eventq_poll-put quiet 7 3 (ground arith) refl 4 9 quiet-IsQueue

ticking_delay : time_delay ticking 4 2 0 ≡ some 2
unfolding time_delay wait_until expired deadline
ticking_delay = refl
