-- ===== src/Port/Examples.antt =====
-- The theorems on the loops of nimble-rs/src/port.rs at a concrete store.
use nimble_rs.Base.{
  ℕ, Bool, ◌==◌, if◌then◌else◌, ◌∙◌, Bool-cases, inl, inr, ◌≡◌, refl, false, some, List, [], ◌∷◌,
  arith,
}
use nimble_rs.Npl.Store.{Ptr, Store, Waker}
use nimble_rs.Npl.Eventq.Defs.{IsQueue}
use nimble_rs.Npl.Eventq.{eventq_put}
use nimble_rs.Npl.Eventq.Fifo.{eventq_put-func}
use nimble_rs.Npl.Eventq.Held.{Holds, put_one, put_all, eventq_put-Holds}
use nimble_rs.Npl.Timers.Fire.{Fired}
use nimble_rs.Npl.Sample.{busy, busy-IsQueue, busy-IsTimers}
use nimble_rs.Port.{State, run_events, drain_events, run_timers}
use nimble_rs.Port.Drain.{drain_events-Serves}
use nimble_rs.Port.Events.{Serves, done, next, IsHost, run_events-Serves}
use nimble_rs.Port.Timers.{run_timers-Fired}

-- A host whose callbacks record their events, the last first; event 1 also puts event 3, which is in no
-- queue, and event 2, which is queued already.
abbrev recording : Ptr → Ptr → State (List Ptr) → State (List Ptr)
recording func ev (s, seen) = (if ev == 1 then eventq_put 7 2 (eventq_put 7 3 s) else s, ev ∷ seen)

abbrev posts : Ptr → Ptr → List Ptr → List Ptr
posts func ev seen = if ev == 1 then 3 ∷ 2 ∷ [] else []

abbrev records : Ptr → Ptr → List Ptr → List Ptr
records func ev seen = ev ∷ seen

recording_queue :
    (func ev : Ptr) (s : Store) (h : List Ptr) (xs : List Ptr)
    → Holds s 7 xs
    → Holds (recording func ev (s, h)).0 7 (put_all (posts func ev h) xs)
recording_queue func ev s h xs q = elim (Bool-cases (ev == 1)) [
  | inl e ↦ rw e (
      eventq_put-Holds (eventq_put 7 3 s) 7 2 (put_one 3 xs) (ground arith)
        (eventq_put-Holds s 7 3 xs (ground arith) q))
  | inr e ↦ rw e q
]

recording_funcs :
    (func ev : Ptr) (s : Store) (h : List Ptr) (p : Ptr)
    → ((recording func ev (s, h)).0.event p).func ≡ (s.event p).func
recording_funcs func ev s h p = elim (Bool-cases (ev == 1)) [
  | inl e ↦ rw e (eventq_put-func 7 2 (eventq_put 7 3 s) p ∙ eventq_put-func 7 3 s p)
  | inr e ↦ rw e refl
]

recording-IsHost : IsHost (λ p. some 70) posts records recording 7
recording-IsHost = record {
  queue = recording_queue;
  host = λ func ev s h. refl;
  funcs_kept = recording_funcs;
}

three_served : Serves (λ p. some 70) posts records (1 ∷ 2 ∷ []) [] (1 ∷ 2 ∷ 3 ∷ []) (3 ∷ 2 ∷ 1 ∷ [])
three_served = next 1 (2 ∷ []) (2 ∷ 3 ∷ []) [] (3 ∷ 2 ∷ 1 ∷ []) (
    next 2 (3 ∷ []) (3 ∷ []) (1 ∷ []) (3 ∷ 2 ∷ 1 ∷ [])
      (next 3 [] [] (2 ∷ 1 ∷ []) (3 ∷ 2 ∷ 1 ∷ []) (done (3 ∷ 2 ∷ 1 ∷ []))))

busy-Holds : Holds busy 7 (1 ∷ 2 ∷ [])
busy-Holds = record { queue = busy-IsQueue; only = λ p on. ground arith }

run_events-Serves_example :
    (t : Store) × (run_events recording 7 4 9 (busy, []) ≡ some (t, 3 ∷ 2 ∷ 1 ∷ []))
    × IsQueue t 7 []
    × ((t.eventq 7).waker ≡ some 9)
run_events-Serves_example =
    run_events-Serves (λ p. some 70) posts records recording 7 4 9 busy (1 ∷ 2 ∷ [])
      (1 ∷ 2 ∷ 3 ∷ []) [] (3 ∷ 2 ∷ 1 ∷ []) recording-IsHost three_served (λ p. refl) busy-Holds
      (omega arith)

-- Timers that are not ready, with the deadlines and wakers that they are armed with.
abbrev at_deadlines : ℕ → Waker → List (ℕ × Waker) → Bool × List (ℕ × Waker)
at_deadlines d w armed = (false, (d, w) ∷ armed)

run_timers-Fired_example :
    (t : Store) × (run_timers at_deadlines (λ p s. s) (λ i. 15) 3 2 0 8 (busy, [])
      ≡ some (t, (20, 8) ∷ []))
    × Fired busy t 7 15 (1 ∷ 2 ∷ []) (100 ∷ 200 ∷ [])
    × (t.timers.waker ≡ some 8)
run_timers-Fired_example =
    run_timers-Fired at_deadlines (λ p s. s) (λ i. 15) 3 15 (λ j. refl)
      (λ d w h e. absurd (ground arith)) 0 8 busy [] 7 (100 ∷ 200 ∷ []) (1 ∷ 2 ∷ []) busy-IsTimers
      busy-IsQueue (ground arith) (λ p h. refl) (λ p h. ground arith) (omega arith)

drain_events-Serves_example :
    (t : Store) × (drain_events recording 7 4 (busy, []) ≡ some (t, 3 ∷ 2 ∷ 1 ∷ []))
    × IsQueue t 7 []
drain_events-Serves_example =
    drain_events-Serves (λ p. some 70) posts records recording 7 4 busy (1 ∷ 2 ∷ [])
      (1 ∷ 2 ∷ 3 ∷ []) [] (3 ∷ 2 ∷ 1 ∷ []) recording-IsHost three_served (λ p. refl) busy-Holds
      (omega arith)
