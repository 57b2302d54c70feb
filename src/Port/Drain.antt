-- ===== src/Port/Drain.antt =====
-- `drain_events` of nimble-rs/src/port.rs serves the default queue until it is empty.
use nimble_rs.Base.{
  ℕ, zero, suc, ◌<◌, ◌≡◌, refl, ◌∙◌, ap, true, false, Option, some, List, [], ◌∷◌, length, arith,
  ◌==◌,
}
use nimble_rs.Npl.Store.{Ptr, null, Store}
use nimble_rs.Npl.Eventq.{eventq_try_pop}
use nimble_rs.Npl.Eventq.Defs.{IsQueue}
use nimble_rs.Npl.Eventq.Fifo.{eventq_try_pop-cons, eventq_try_pop-nil}
use nimble_rs.Npl.Eventq.Held.{Holds, put_all, eventq_try_pop-Holds}
use nimble_rs.Port.{State, event_run, drain_events}
use nimble_rs.Port.Events.{
  Serves, done, next, posted, handled, IsHost, event_run-Holds, popped-func,
}

module _ {H : Type 0} (call : (func ev : Ptr) → State H → State H) (evq : Ptr) where
  abbrev after_pop : ℕ → H → Ptr × Store → Option (State H)
  after_pop fuel h r = elim (r.0 == null) [
    | true ↦ some (r.1, h)
    | false ↦ drain_events call evq fuel (event_run call r.0 (r.1, h))
  ]

  drain_events_lem :
      (fuel : ℕ) (s : Store) (h : H)
      → drain_events call evq (suc fuel) (s, h) ≡ after_pop fuel h (eventq_try_pop evq s)
  unfolding drain_events
  drain_events_lem fuel s h = refl

  drain_events_next :
      (fuel : ℕ) (s : Store) (h : H) (x : Ptr) (xs : List Ptr)
      → IsQueue s evq (x ∷ xs)
      → drain_events call evq (suc fuel) (s, h)
        ≡ drain_events call evq fuel (event_run call x ((eventq_try_pop evq s).1, h))
  drain_events_next fuel s h x xs q =
      let (first, rest, free) = eventq_try_pop-cons x xs q in
      let live : ((eventq_try_pop evq s).0 == null) ≡ false = ground (arith, q.chain) in
      drain_events_lem fuel s h
      ∙ rw (live, after_pop)
          (ap (λ p. drain_events call evq fuel (event_run call p ((eventq_try_pop evq s).1, h)))
            first)

module _ {H : Type 0} (funcs : Ptr → Option Ptr) (posts : (func ev : Ptr) → H → List Ptr)
    (handle : (func ev : Ptr) → H → H) (call : (func ev : Ptr) → State H → State H)
    (evq : Ptr) where
  -- A drain of the default queue runs its events in order, with those that the callbacks put on it
  -- meanwhile, each once for each time it is put while it is not on the queue, and returns with the
  -- queue empty. It takes one round more than there are events to run. This is for events that are queued
  -- on the default queue or not at all, and callbacks that change that queue only by puts.
  pub drain_events-Serves :
      (fuel : ℕ) (s : Store) (xs evs : List Ptr) (h h' : H)
      → IsHost funcs posts handle call evq
      → Serves funcs posts handle xs h evs h'
      → ((p : Ptr) → (s.event p).func ≡ funcs p)
      → Holds s evq xs
      → length evs < fuel
      → (t : Store) × (drain_events call evq fuel (s, h) ≡ some (t, h')) × IsQueue t evq []
  drain_events-Serves zero s xs evs h h' host served f q enough = absurd (omega arith)
  drain_events-Serves (suc fuel) s _ _ h _ host (done _) f q enough = (
    s,
    drain_events_lem call evq fuel s h
        ∙ ap (after_pop call evq fuel h) (eventq_try_pop-nil q.queue),
    q.queue,
  )
  drain_events-Serves (suc fuel) s _ _ h h' host (next x xs evs _ _ served) f q enough =
      let (first, rest, free) = eventq_try_pop-cons x xs q.queue in
      let s' = (eventq_try_pop evq s).1 in
      let (q', host', kept) =
        event_run-Holds funcs posts handle call evq x s' h xs host
          (popped-func funcs posts handle call evq s x ∙ f x) (eventq_try_pop-Holds s evq x xs q) in
      let h2 = handled funcs posts handle (funcs x) x h in
      let er = event_run call x (s', h) in
      let (t, e, empty) =
        drain_events-Serves fuel er.0 (put_all (posted funcs posts handle (funcs x) x h) xs) evs h2
          h' host served (λ p. kept p ∙ popped-func funcs posts handle call evq s p ∙ f p) q'
          (omega arith) in
      (
        t,
        drain_events_next call evq fuel s h x xs q.queue
            ∙ ap (λ k. drain_events call evq fuel (er.0, k)) host'
            ∙ e,
        empty,
      )
