-- ===== src/Port/Timers.antt =====
-- `run_timers` of nimble-rs/src/port.rs fires what is due and then waits for the next deadline.
use nimble_rs.Base.{
  ℕ, suc, ◌+◌, ◌<◌, ◌≤◌, ◌≡◌, ◌≢◌, refl, sym, ◌∙◌, ap, Bool, true, false, Option, none, some, List,
  [], ◌∷◌, ◌++◌, map, length, leb, ◌==◌, has, arith, Bool-cases, inl, inr,
}
use nimble_rs.Npl.Store.{Ptr, null, Waker, Store, event_of}
use nimble_rs.Npl.Eventq.Defs.{IsQueue, IsQueue-frame}
use nimble_rs.Npl.Timers.{timers_poll_next_deadline, timers_fire_due}
use nimble_rs.Npl.Timers.Defs.{callout_deadline, IsTimers, IsTimers-frame}
use nimble_rs.Npl.Timers.Fire.{Fired, Fired-none, due, later, timers_fire_due-Fired}
use nimble_rs.Port.{State, is_ready, run_timers}

due-later : (d : Ptr → ℕ) (now : ℕ) (xs : List Ptr) → due d now (later d now xs) ≡ []
due-later d now [] = refl
due-later d now (x ∷ xs) = ground (arith, due-later d now xs)

none_due :
    (d d' : Ptr → ℕ) (now : ℕ) (xs : List Ptr)
    → ((p : Ptr) → d' p ≡ d p)
    → due d now xs ≡ []
    → due d' now xs ≡ []
none_due d d' now [] same e = refl
none_due d d' now (x ∷ xs) same e = ground (arith, same x)

later_all : (d : Ptr → ℕ) (now : ℕ) (xs : List Ptr) → due d now xs ≡ [] → later d now xs ≡ xs
later_all d now [] e = refl
later_all d now (x ∷ xs) e = ground arith

-- The store while `run_timers` waits.
abbrev pub waiting : Waker → Store → Store
waiting waker s = record s { timers = record (s.timers) { waker = some waker } }

waiting-IsTimers :
    (waker : Waker) (s : Store) (xs : List Ptr) → IsTimers s xs → IsTimers (waiting waker s) xs
waiting-IsTimers waker s xs i = IsTimers-frame s (waiting waker s) xs refl refl i

poll-nil :
    (waker : Waker) (s : Store)
    → IsTimers s []
    → timers_poll_next_deadline waker s ≡ (none, waiting waker s)
unfolding timers_poll_next_deadline
poll-nil waker s i = let e : (s.timers.head == null) ≡ true = ground (arith, i.chain) in rw e refl

poll-cons :
    (waker : Waker) (s : Store) (x : Ptr) (xs : List Ptr)
    → IsTimers s (x ∷ xs)
    → timers_poll_next_deadline waker s ≡ (some (callout_deadline s x), waiting waker s)
unfolding timers_poll_next_deadline
poll-cons waker s x xs i =
    let live : x ≢ null = i.chain.1 in
    let e : (s.timers.head == null) ≡ false = ground (arith, i.chain.0) in
    rw e (ap (λ p. (some (callout_deadline s p), waiting waker s)) i.chain.0)

-- The host after the timer of the first of some callouts, if any, was polled.
module _ {H : Type 0} (poll_timer : ℕ → Waker → H → Bool × H) where
  abbrev pub first_polled : (Ptr → ℕ) → Waker → List Ptr → H → H
  first_polled d waker [] h = h
  first_polled d waker (x ∷ xs) h = (poll_timer (d x) waker h).1

module _ {H : Type 0} (poll_timer : ℕ → Waker → H → Bool × H) (run : Ptr → Store → Store)
    (clock : ℕ → ℕ) (limit now : ℕ) (steady : (j : ℕ) → clock j ≡ now)
    (no_early : (d : ℕ) (w : Waker) (h : H) → (poll_timer d w h).0 ≡ true → d ≤ now) where
  -- What `run_timers` does with the answer of the timer.
  abbrev after_ready : ℕ → ℕ → Waker → Store → Bool × H → Option (State H)
  after_ready fuel i waker s p = elim p.0 [
    | false ↦ some (s, p.1)
    | true ↦ elim (timers_fire_due limit run (i + 1) clock s) [
      | none ↦ none
      | some t ↦ run_timers poll_timer run clock limit fuel (i + 1) waker (t, p.1)
    ]
  ]

  -- What `run_timers` does with a deadline.
  abbrev after_poll : ℕ → ℕ → Waker → H → Option ℕ × Store → Option (State H)
  after_poll fuel i waker h r =
      after_ready fuel i waker r.1 (is_ready poll_timer (clock i) waker h r.0)

  run_timers_lem :
      (fuel i : ℕ) (waker : Waker) (s : Store) (h : H)
      → run_timers poll_timer run clock limit (suc fuel) i waker (s, h)
        ≡ after_poll fuel i waker h (timers_poll_next_deadline waker s)
  unfolding run_timers
  run_timers_lem fuel i waker s h = refl

  passed :
      (i d : ℕ) (waker : Waker) (h : H)
      → leb d now ≡ true
      → is_ready poll_timer (clock i) waker h (some d) ≡ (true, h)
  passed i d waker h e = rw (steady i, e) refl

  not_passed :
      (i d : ℕ) (waker : Waker) (h : H)
      → leb d now ≡ false
      → is_ready poll_timer (clock i) waker h (some d) ≡ (false, (poll_timer d waker h).1)
  not_passed i d waker h e =
      let pending : (poll_timer d waker h).0 ≡ false = ground (arith, no_early d waker h) in
      rw (steady i, e) (λ k. (pending k, (poll_timer d waker h).1))

  -- With no callout due, `run_timers` waits, with the timer of the first one armed.
  run_timers_waits :
      (fuel i : ℕ) (waker : Waker) (s : Store) (h : H) (xs : List Ptr)
      → IsTimers s xs
      → due (callout_deadline s) now xs ≡ []
      → run_timers poll_timer run clock limit (suc fuel) i waker (s, h)
        ≡ some (waiting waker s, first_polled poll_timer (callout_deadline s) waker xs h)
  run_timers_waits fuel i waker s h [] it e =
      run_timers_lem fuel i waker s h ∙ ap (after_poll fuel i waker h) (poll-nil waker s it)
  run_timers_waits fuel i waker s h (x ∷ xs) it e =
      let early : leb (callout_deadline s x) now ≡ false = ground arith in
      run_timers_lem fuel i waker s h
      ∙ ap (after_poll fuel i waker h) (poll-cons waker s x xs it)
      ∙ ap (after_ready fuel i waker (waiting waker s))
          (not_passed i (callout_deadline s x) waker h early)

  -- What `run_timers` does once it is ready.
  abbrev after_fire : ℕ → ℕ → Waker → H → Option Store → Option (State H)
  after_fire fuel i waker h r = elim r [
    | none ↦ none
    | some t ↦ run_timers poll_timer run clock limit fuel (i + 1) waker (t, h)
  ]

  run_timers_ready :
      (fuel i : ℕ) (waker : Waker) (s : Store) (h : H) (x : Ptr) (xs : List Ptr)
      → IsTimers s (x ∷ xs)
      → leb (callout_deadline s x) now ≡ true
      → run_timers poll_timer run clock limit (suc fuel) i waker (s, h)
        ≡ after_fire fuel i waker h (timers_fire_due limit run (i + 1) clock (waiting waker s))
  run_timers_ready fuel i waker s h x xs it e =
      run_timers_lem fuel i waker s h
      ∙ ap (after_poll fuel i waker h) (poll-cons waker s x xs it)
      ∙ ap (after_ready fuel i waker (waiting waker s)) (passed i (callout_deadline s x) waker h e)

  same_polled :
      (d d' : Ptr → ℕ) (waker : Waker) (xs : List Ptr) (h : H)
      → ((p : Ptr) → d' p ≡ d p)
      → first_polled poll_timer d' waker xs h ≡ first_polled poll_timer d waker xs h
  same_polled d d' waker [] h same = refl
  same_polled d d' waker (x ∷ xs) h same = ap (λ n. (poll_timer n waker h).1) (same x)

  -- The queue and the timers do not depend on the waker of `run_timers`.
  Fired-waiting :
      (waker : Waker) (s t : Store) (evq : Ptr) (evs xs : List Ptr)
      → Fired s t evq now evs xs
      → Fired s (waiting waker t) evq now evs xs
  Fired-waiting waker s t evq evs xs f = record {
    timers = waiting-IsTimers waker t (later (callout_deadline s) now xs) f.timers;
    queue =
        IsQueue-frame t (waiting waker t) evq
          (evs ++ map event_of (due (callout_deadline s) now xs)) refl refl f.queue;
    deadlines = f.deadlines;
    waker = f.waker;
    woken = f.woken;
  }

  Fired-waiting_before :
      (waker : Waker) (s t : Store) (evq : Ptr) (evs xs : List Ptr)
      → Fired (waiting waker s) t evq now evs xs
      → Fired s t evq now evs xs
  Fired-waiting_before waker s t evq evs xs f = record {
    timers = f.timers;
    queue = f.queue;
    deadlines = f.deadlines;
    waker = f.waker;
    woken = f.woken;
  }

  -- With no callout due, waiting is what firing would leave.
  Fired-still :
      (waker : Waker) (s : Store) (evq : Ptr) (evs xs : List Ptr)
      → IsTimers s xs
      → IsQueue s evq evs
      → due (callout_deadline s) now xs ≡ []
      → Fired s (waiting waker s) evq now evs xs
  Fired-still waker s evq evs xs it iq e =
      Fired-waiting waker s s evq evs xs
        (Fired-none s evq now evs xs it iq e (later_all (callout_deadline s) now xs e))

  -- A poll of `run_timers` with the clock at `now`: it puts the events of exactly the callouts that are
  -- due on their queue, the earliest deadline first, and leaves the others active; if any was due, the
  -- waker that the queue had is woken, once. It then waits for the next deadline: its waker is registered
  -- with the timers, and if a callout is left, the timer of `embassy_time` for the deadline of the first
  -- one, and no other, is polled with that waker, once. This is for callouts that all fire to one queue
  -- and whose events are not queued, with timers of `embassy_time` that are not ready early. Two rounds are
  -- enough.
  pub run_timers-Fired :
      (i : ℕ) (waker : Waker) (s : Store) (h : H) (evq : Ptr) (xs evs : List Ptr)
      → IsTimers s xs
      → IsQueue s evq evs
      → evq ≢ null
      → ((p : Ptr) → has p xs ≡ true → (s.callout p).evq ≡ evq)
      → ((p : Ptr) → has p xs ≡ true → (s.event (event_of p)).queued ≡ false)
      → length xs < limit
      → (t : Store) × (run_timers poll_timer run clock limit 2 i waker (s, h)
          ≡ some (
            t,
            first_polled poll_timer
                (callout_deadline s)
                waker
                (later (callout_deadline s) now xs)
                h,
          ))
        × Fired s t evq now evs xs
        × (t.timers.waker ≡ some waker)
  run_timers-Fired i waker s h evq [] evs it iq some_q to free enough = (
    waiting waker s,
    run_timers_waits 1 i waker s h [] it refl,
    Fired-still waker s evq evs [] it iq refl,
    refl,
  )
  run_timers-Fired i waker s h evq (x ∷ xs) evs it iq some_q to free enough =
      elim (Bool-cases (leb (callout_deadline s x) now)) [
        | inl e ↦
            let (t, ran, fired) =
              timers_fire_due-Fired limit (i + 1) now run clock (waiting waker s) evq (x ∷ xs) evs
                steady (waiting-IsTimers waker s (x ∷ xs) it)
                (IsQueue-frame s (waiting waker s) evq evs refl refl iq) some_q to free enough in
            let rest = later (callout_deadline s) now (x ∷ xs) in
            (
              waiting waker t,
              run_timers_ready 1 i waker s h x xs it e
                  ∙ ap (after_fire 1 i waker h) ran
                  ∙ run_timers_waits 0 (i + 1) waker t h rest fired.timers (
                      none_due (callout_deadline s) (callout_deadline t) now rest fired.deadlines
                        (due-later (callout_deadline s) now (x ∷ xs)))
                  ∙ ap (λ k. some (waiting waker t, k))
                      (same_polled (callout_deadline s) (callout_deadline t) waker rest h
                        fired.deadlines),
              Fired-waiting waker s t evq evs (x ∷ xs)
                  (Fired-waiting_before waker s t evq evs (x ∷ xs) fired),
              refl,
            )
        | inr e ↦
            let still : due (callout_deadline s) now (x ∷ xs) ≡ [] = ground arith in
            (
              waiting waker s,
              run_timers_waits 1 i waker s h (x ∷ xs) it still
                  ∙ ap
                      (λ ys.
                        some (
                          waiting waker s,
                          first_polled poll_timer (callout_deadline s) waker ys h,
                        ))
                      (sym (later_all (callout_deadline s) now (x ∷ xs) still)),
              Fired-still waker s evq evs (x ∷ xs) it iq still,
              refl,
            )
      ]
