-- ===== src/Driver/Examples.antt =====
-- The theorem on a poll of `Ble::run`, nimble-rs/src/lib.rs, at a concrete store.
use nimble_rs.Base.{ℕ, Bool, List, ◌≡◌, refl, some, none, false, [], ◌∷◌, arith}
use nimble_rs.Npl.Store.{Store, Waker}
use nimble_rs.Npl.Eventq.Defs.{IsQueue}
use nimble_rs.Npl.Timers.Defs.{IsTimers}
use nimble_rs.Npl.Sample.{asleep, asleep-IsQueue, asleep-IsTimers}
use nimble_rs.Driver.Calls.{run_poll}
use nimble_rs.Driver.Run.{run_poll-wakes}

-- Timers that are not ready, with the deadlines and wakers that they are armed with.
abbrev at_deadlines : ℕ → Waker → List (ℕ × Waker) → Bool × List (ℕ × Waker)
at_deadlines d w armed = (false, (d, w) ∷ armed)

-- At 15 the callout 100 is due, and 200 is not; the event of 100 stands at 132.
run_poll-wakes_example :
    (t : Store) × (run_poll
        (λ func ev st. st)
        7
        (λ p s. s)
        (λ i. 15)
        at_deadlines
        (λ w st. st)
        1
        2
        3
        9
        (asleep, [])
      ≡ some (t, (20, 9) ∷ []))
    × IsQueue t 7 (132 ∷ [])
    × IsTimers t (200 ∷ [])
    × (t.woken ≡ 9 ∷ [])
    × ((t.eventq 7).waker ≡ none)
    × (t.timers.waker ≡ some 9)
run_poll-wakes_example =
    run_poll-wakes (λ func ev st. st) 7 (λ p s. s) (λ i. 15) at_deadlines (λ w st. st) 15
      (λ j. refl) (λ d w h e. absurd (ground arith)) 0 3 9 asleep [] (100 ∷ 200 ∷ []) asleep-IsQueue
      asleep-IsTimers (ground arith) (λ p h. refl) (λ p h. refl) (omega arith)
