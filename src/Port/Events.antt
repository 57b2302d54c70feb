-- ===== src/Port/Events.antt =====
-- `run_events` of nimble-rs/src/port.rs serves the default queue in order.
use nimble_rs.Base.{
  ℕ, zero, suc, ◌<◌, ◌≡◌, refl, ◌∙◌, ap, Option, none, some, List, [], ◌∷◌, length, arith,
}
use nimble_rs.Npl.Store.{Ptr, Waker, Store}
use nimble_rs.Npl.Eventq.{eventq_try_pop, eventq_poll}
use nimble_rs.Npl.Eventq.Defs.{IsQueue}
use nimble_rs.Npl.Eventq.Held.{Holds, put_all, eventq_try_pop-Holds}
use nimble_rs.Npl.Eventq.Poll.{eventq_poll-cons, eventq_poll-nil, registered, registered-IsQueue}
use nimble_rs.Npl.Eventq.Fifo.{eventq_try_pop-cons}
use nimble_rs.Port.{State, called, event_run, run_if_some, run_events}

module _ {H : Type 0} (call : (func ev : Ptr) → State H → State H) (evq : Ptr) where
  abbrev after_poll : ℕ → Waker → H → Option Ptr × Store → Option (State H)
  after_poll fuel waker h r = elim r.0 [
    | none ↦ some (r.1, h)
    | some ev ↦ run_events call evq fuel waker (run_if_some call evq ev (r.1, h))
  ]

  run_events_lem :
      (fuel : ℕ) (waker : Waker) (s : Store) (h : H)
      → run_events call evq (suc fuel) waker (s, h)
        ≡ after_poll fuel waker h (eventq_poll evq waker s)
  unfolding run_events
  run_events_lem fuel waker s h = refl

  -- On an empty queue `run_events` waits.
  pub run_events_idle :
      (fuel : ℕ) (waker : Waker) (s : Store) (h : H)
      → IsQueue s evq []
      → run_events call evq (suc fuel) waker (s, h) ≡ some (registered s evq waker, h)
  run_events_idle fuel waker s h q =
      run_events_lem fuel waker s h ∙ ap (after_poll fuel waker h) (eventq_poll-nil s evq waker q)

module _ {H : Type 0} (funcs : Ptr → Option Ptr) (posts : (func ev : Ptr) → H → List Ptr)
    (handle : (func ev : Ptr) → H → H) where
  -- The events that running an event puts on the queue, and what it does to the host.
  abbrev pub posted : Option Ptr → Ptr → H → List Ptr
  posted none ev h = []
  posted (some func) ev h = posts func ev h

  abbrev pub handled : Option Ptr → Ptr → H → H
  handled none ev h = h
  handled (some func) ev h = handle func ev h

  -- Serving a queue in order, from a host's state on: the events that are run, the ones that are put on
  -- the queue meanwhile included, and the state at the end.
  pub data Serves : List Ptr → H → List Ptr → H → Type 0 where
    done : (h : H) → Serves [] h [] h
    next :
        (x : Ptr) (xs evs : List Ptr) (h h' : H)
        → Serves (put_all (posted (funcs x) x h) xs) (handled (funcs x) x h) evs h'
        → Serves (x ∷ xs) h (x ∷ evs) h'

  module _ (call : (func ev : Ptr) → State H → State H) (evq : Ptr) where
    -- What the host's callbacks do: they put events on the queue, of which those that are queued already
    -- stay where they are, and leave the events' callbacks as they are.
    pub record IsHost : Type 0 where
      pub queue :
          (func ev : Ptr) (s : Store) (h : H) (xs : List Ptr)
          → Holds s evq xs
          → Holds (call func ev (s, h)).0 evq (put_all (posts func ev h) xs)
      pub host : (func ev : Ptr) (s : Store) (h : H) → (call func ev (s, h)).1 ≡ handle func ev h
      pub funcs_kept :
          (func ev : Ptr) (s : Store) (h : H) (p : Ptr)
          → ((call func ev (s, h)).0.event p).func ≡ (s.event p).func

    called-Holds :
        (o : Option Ptr) (x : Ptr) (s : Store) (h : H) (xs : List Ptr)
        → IsHost
        → Holds s evq xs
        → Holds (called call o x (s, h)).0 evq (put_all (posted o x h) xs)
          × ((called call o x (s, h)).1 ≡ handled o x h)
          × ((p : Ptr) → ((called call o x (s, h)).0.event p).func ≡ (s.event p).func)
    called-Holds none x s h xs host q = (q, refl, λ p. refl)
    called-Holds (some func) x s h xs host q =
        (host.queue func x s h xs q, host.host func x s h, host.funcs_kept func x s h)

    -- Running an event with a callback of the host's, or with none.
    pub event_run-Holds :
        (x : Ptr) (s : Store) (h : H) (xs : List Ptr)
        → IsHost
        → (s.event x).func ≡ funcs x
        → Holds s evq xs
        → Holds (event_run call x (s, h)).0 evq (put_all (posted (funcs x) x h) xs)
          × ((event_run call x (s, h)).1 ≡ handled (funcs x) x h)
          × ((p : Ptr) → ((event_run call x (s, h)).0.event p).func ≡ (s.event p).func)
    unfolding event_run
    event_run-Holds x s h xs host f q = rw f (called-Holds (funcs x) x s h xs host q)

    -- A pop leaves the callbacks of all events.
    pub popped-func :
        (s : Store) (p : Ptr) → ((eventq_try_pop evq s).1.event p).func ≡ (s.event p).func
    unfolding eventq_try_pop
    popped-func s p = ground arith

    -- A poll of `run_events` serves the default queue in order, with the events that the callbacks put
    -- on it meanwhile, each once for each time it is put while it is not on the queue, and then waits on
    -- the empty queue with its waker registered. It takes one round more than there are events to run. This
    -- is for events that are queued on the default queue or not at all, and callbacks that change that queue only by puts.
    pub run_events-Serves :
        (fuel : ℕ) (waker : Waker) (s : Store) (xs evs : List Ptr) (h h' : H)
        → IsHost
        → Serves xs h evs h'
        → ((p : Ptr) → (s.event p).func ≡ funcs p)
        → Holds s evq xs
        → length evs < fuel
        → (t : Store) × (run_events call evq fuel waker (s, h) ≡ some (t, h'))
          × IsQueue t evq []
          × ((t.eventq evq).waker ≡ some waker)
    run_events-Serves zero waker s xs evs h h' host served f q enough = absurd (omega arith)
    run_events-Serves (suc fuel) waker s _ _ h _ host (done _) f q enough = (
      registered s evq waker,
      run_events_idle call evq fuel waker s h q.queue,
      registered-IsQueue s evq waker q.queue,
      ground arith,
    )
    run_events-Serves (suc fuel) waker s _ _ h h' host (next x xs evs _ _ served) f q enough =
        let (first, rest, free) = eventq_try_pop-cons x xs q.queue in
        let s' = (eventq_try_pop evq s).1 in
        let (q', host', kept) =
          event_run-Holds x s' h xs host (popped-func s x ∙ f x)
            (eventq_try_pop-Holds s evq x xs q) in
        let h2 = handled (funcs x) x h in
        let er = event_run call x (s', h) in
        let ran : run_if_some call evq x (s', h) ≡ (er.0, h2) = ground (arith, q.queue.chain) in
        let (t, e, empty, w) =
          run_events-Serves fuel waker er.0 (put_all (posted (funcs x) x h) xs) evs h2 h' host
            served (λ p. kept p ∙ popped-func s p ∙ f p) q' (omega arith) in
        (
          t,
          run_events_lem call evq fuel waker s h
              ∙ ap (after_poll call evq fuel waker h) (eventq_poll-cons s evq waker x xs q.queue)
              ∙ ap (run_events call evq fuel waker) ran
              ∙ e,
          empty,
          w,
        )
