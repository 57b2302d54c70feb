-- ===== src/Npl/Timers/Fire.antt =====
-- `timers_fire_due` of nimble-rs/src/npl.rs: which callouts it fires, and in which order.
use nimble_rs.Base.{
  ℕ, zero, suc, ◌+◌, ◌<◌, ◌≡◌, ◌≢◌, refl, ap, subst, sym, ◌∙◌, true, false, Option, none, some,
  List, [], ◌∷◌, ◌++◌, arith, ◌&&◌, leb, if◌then◌else◌, has, length, map, Bool-cases, inl, inr,
}
use mathlib.Core.List.{append_assoc, append-nil}
use nimble_rs.Npl.Store.{Ptr, null, Waker, Store, set_callout, event_of, wake}
use nimble_rs.Npl.Chain.{Chain-frame}
use nimble_rs.Npl.Eventq.{eventq_put}
use nimble_rs.Npl.Eventq.Defs.{IsQueue, IsQueue-frame}
use nimble_rs.Npl.Eventq.Fifo.{eventq_put-append, eventq_put_rest}
use nimble_rs.Npl.Timers.{take_due, fire, timers_fire_due}
use nimble_rs.Npl.Timers.Defs.{callout_next, callout_deadline, IsSorted, IsTimers, IsTimers-frame}
use nimble_rs.Npl.Timers.Unlink.{IsSorted-mono}

-- The callouts of a sorted list that are due at `now`, and those that are not.
abbrev pub due : (Ptr → ℕ) → ℕ → List Ptr → List Ptr
due d now [] = []
due d now (x ∷ xs) = if leb (d x) now then x ∷ due d now xs else []

abbrev pub later : (Ptr → ℕ) → ℕ → List Ptr → List Ptr
later d now [] = []
later d now (x ∷ xs) = if leb (d x) now then later d now xs else x ∷ xs

-- In a sorted list no callout behind the first that is not due is due.
pub has-due :
    (d : Ptr → ℕ) (now p : ℕ) (xs : List Ptr)
    → IsSorted d xs
    → has p (due d now xs) ≡ (has p xs && leb (d p) now)
has-due d now p [] s = refl
has-due d now p (x ∷ xs) s = ground (arith, has-due d now p xs s.1, s.0 p)

-- The state after one round that finds `x` due.
taken : Ptr → Store → Store
taken x s =
    set_callout (record s { timers = record (s.timers) { head = (s.callout x).next } }) x
      (record (s.callout x) { next = null; active = false })

taken_rest :
    (x : Ptr) (s : Store)
    → ((taken x s).event ≡ s.event)
      × ((taken x s).eventq ≡ s.eventq)
      × ((p : Ptr) → ((taken x s).callout p).evq ≡ (s.callout p).evq)
      × ((p : Ptr) → ((taken x s).callout p).deadline ≡ (s.callout p).deadline)
unfolding taken
taken_rest x s = (refl, refl, λ p. ground arith, λ p. ground arith)

taken-woken :
    (x evq : Ptr) (s : Store)
    → (wake ((taken x s).eventq evq).waker (taken x s)).woken ≡ (wake (s.eventq evq).waker s).woken
unfolding taken
taken-woken x evq s = refl

taken-IsTimers :
    (x : Ptr) (s : Store) (xs : List Ptr) → IsTimers s (x ∷ xs) → IsTimers (taken x s) xs
unfolding taken
taken-IsTimers x s xs i = record {
  chain =
      Chain-frame (callout_next s) (callout_next (taken x s)) (s.callout x).next xs i.chain.2
        (λ q h. ground arith);
  distinct = i.distinct.1;
  sorted =
      IsSorted-mono (callout_deadline s) (callout_deadline (taken x s)) xs (λ q h. ground arith)
        i.sorted.1;
  active = λ p. ground (arith, i.active p);
}

take_due_lem :
    (now : ℕ) (x : Ptr) (s : Store) (xs : List Ptr)
    → IsTimers s (x ∷ xs)
    → take_due now s ≡ (if leb (s.callout x).deadline now then some (x, taken x s) else none)
unfolding take_due taken
take_due_lem now x s xs i = rw i.chain.0 (ground arith)

due-congr :
    (d d' : Ptr → ℕ) (now : ℕ) (xs : List Ptr)
    → ((p : Ptr) → d' p ≡ d p)
    → (due d' now xs ≡ due d now xs) × (later d' now xs ≡ later d now xs)
due-congr d d' now [] same = (refl, refl)
due-congr d d' now (x ∷ xs) same = ground (arith, same x, due-congr d d' now xs same)

due_cut :
    (d : Ptr → ℕ) (now x : ℕ) (xs : List Ptr)
    → leb (d x) now ≡ false
    → (due d now (x ∷ xs) ≡ []) × (later d now (x ∷ xs) ≡ x ∷ xs)
due_cut d now x xs e = ground arith

due_take :
    (d : Ptr → ℕ) (now x : ℕ) (xs : List Ptr)
    → leb (d x) now ≡ true
    → (due d now (x ∷ xs) ≡ x ∷ due d now xs) × (later d now (x ∷ xs) ≡ later d now xs)
due_take d now x xs e = ground arith

take_due_nil : (now : ℕ) (s : Store) → IsTimers s [] → take_due now s ≡ none
unfolding take_due
take_due_nil now s i = rw i.chain

fire_lem :
    (run : Ptr → Store → Store) (x evq : Ptr) (s : Store)
    → (s.callout x).evq ≡ evq
    → evq ≢ null
    → fire run x s ≡ eventq_put evq (event_of x) s
unfolding fire
fire_lem run x evq s e some_q = ground arith

-- What `timers_fire_due` does with the result of a round.
after_round : ℕ → (Ptr → Store → Store) → ℕ → (ℕ → ℕ) → Store → Option (Ptr × Store) → Option Store
after_round fuel run i clock s r = elim r [
  | none ↦ some s
  | some (co, t) ↦ timers_fire_due fuel run (i + 1) clock (fire run co t)
]

-- The wakers that a queue wakes as events are put on it, and the one that it is left with: the first
-- event takes the waker and wakes it.
abbrev pub woken_by : Option Waker → List Ptr → List Waker
woken_by none xs = []
woken_by (some w) [] = []
woken_by (some w) (x ∷ xs) = w ∷ []

abbrev pub waker_after : Option Waker → List Ptr → Option Waker
waker_after o [] = o
waker_after o (x ∷ xs) = none

woken_by-nil : (o : Option Waker) → woken_by o [] ≡ []
woken_by-nil none = refl
woken_by-nil (some w) = refl

waker_after-none : (xs : List Ptr) → waker_after none xs ≡ none
waker_after-none [] = refl
waker_after-none (x ∷ xs) = refl

wake-woken_by :
    (o : Option Waker) (s : Store) (x : Ptr) (xs : List Ptr)
    → (wake o s).woken ≡ s.woken ++ woken_by o (x ∷ xs)
wake-woken_by none s x xs = sym (append-nil s.woken)
wake-woken_by (some w) s x xs = refl

-- What a queue and the timers hold once the callouts that are due have fired, and who was woken; no
-- deadline changes.
pub record Fired (s t : Store) (evq : Ptr) (now : ℕ) (evs xs : List Ptr) : Type 0 where
  pub timers : IsTimers t (later (callout_deadline s) now xs)
  pub queue : IsQueue t evq (evs ++ map event_of (due (callout_deadline s) now xs))
  pub deadlines : (p : Ptr) → callout_deadline t p ≡ callout_deadline s p
  pub waker :
      (t.eventq evq).waker ≡ waker_after (s.eventq evq).waker (due (callout_deadline s) now xs)
  pub woken : t.woken ≡ s.woken ++ woken_by (s.eventq evq).waker (due (callout_deadline s) now xs)

-- With no callout due, nothing changes.
pub Fired-none :
    (s : Store) (evq now : ℕ) (evs xs : List Ptr)
    → IsTimers s xs
    → IsQueue s evq evs
    → due (callout_deadline s) now xs ≡ []
    → later (callout_deadline s) now xs ≡ xs
    → Fired s s evq now evs xs
Fired-none s evq now evs xs it iq e l = record {
  timers = subst (λ ys. IsTimers s ys) (sym l) it;
  queue =
      subst (λ ys. IsQueue s evq ys) (sym (ap (λ ys. evs ++ map event_of ys) e ∙ append-nil evs))
        iq;
  deadlines = λ p. refl;
  waker = sym (ap (waker_after (s.eventq evq).waker) e);
  woken = sym (
      ap (λ ys. s.woken ++ woken_by (s.eventq evq).waker ys) e
      ∙ ap (λ ws. s.woken ++ ws) (woken_by-nil (s.eventq evq).waker)
      ∙ append-nil s.woken);
}

Fired-cons :
    (s v t : Store) (evq now x : ℕ) (evs xs : List Ptr)
    → ((p : Ptr) → callout_deadline v p ≡ callout_deadline s p)
    → leb (callout_deadline s x) now ≡ true
    → (v.eventq evq).waker ≡ none
    → v.woken ≡ (wake (s.eventq evq).waker s).woken
    → Fired v t evq now (evs ++ event_of x ∷ []) xs
    → Fired s t evq now evs (x ∷ xs)
Fired-cons s v t evq now x evs xs same e quiet rang fin =
    let (d, l) = due-congr (callout_deadline s) (callout_deadline v) now xs same in
    let (d', l') = due_take (callout_deadline s) now x xs e in
    let fired = due (callout_deadline v) now xs in
    record {
      timers = subst (λ k. IsTimers t k) (l ∙ sym l') fin.timers;
      queue =
          subst (λ k. IsQueue t evq k)
            (append_assoc evs (event_of x ∷ []) (map event_of fired)
              ∙ ap (λ k. evs ++ map event_of k) (ap (λ k. x ∷ k) d ∙ sym d'))
            fin.queue;
      deadlines = λ p. fin.deadlines p ∙ same p;
      waker =
          fin.waker
          ∙ ap (λ o. waker_after o fired) quiet
          ∙ waker_after-none fired
          ∙ sym (ap (waker_after (s.eventq evq).waker) d');
      woken =
          fin.woken
          ∙ ap (λ o. v.woken ++ woken_by o fired) quiet
          ∙ append-nil v.woken
          ∙ rang
          ∙ wake-woken_by (s.eventq evq).waker s x (due (callout_deadline s) now xs)
          ∙ sym (ap (λ k. s.woken ++ woken_by (s.eventq evq).waker k) d');
    }

-- With the clock at `now`, firing queues the events of exactly the callouts that are due, the
-- earliest deadline first, behind what the queue holds already, and leaves the other callouts
-- active, and wakes the waker of the queue, once, if any was due. This is for callouts that all fire
-- to one queue and whose events are not queued. The loop
-- ends within one round more than there are callouts.
pub timers_fire_due-Fired :
    (fuel i now : ℕ) (run : Ptr → Store → Store) (clock : ℕ → ℕ) (s : Store) (evq : Ptr)
    (xs evs : List Ptr)
    → ((j : ℕ) → clock j ≡ now)
    → IsTimers s xs
    → IsQueue s evq evs
    → evq ≢ null
    → ((p : Ptr) → has p xs ≡ true → (s.callout p).evq ≡ evq)
    → ((p : Ptr) → has p xs ≡ true → (s.event (event_of p)).queued ≡ false)
    → length xs < fuel
    → (t : Store) × (timers_fire_due fuel run i clock s ≡ some t) × Fired s t evq now evs xs
unfolding timers_fire_due after_round
timers_fire_due-Fired zero i now run clock s evq xs evs k it iq some_q to free f = elim f [ ]
timers_fire_due-Fired (suc fuel) i now run clock s evq [] evs k it iq some_q to free f = (
  s,
  ap (after_round fuel run i clock s) (take_due_nil (clock i) s it),
  Fired-none s evq now evs [] it iq refl refl,
)
timers_fire_due-Fired (suc fuel) i now run clock s evq (x ∷ xs) evs k it iq some_q to free f =
    elim (Bool-cases (leb (s.callout x).deadline now)) [
      | inl e ↦
          let u = taken x s in
          let v = eventq_put evq (event_of x) u in
          let one_due : take_due (clock i) s ≡ some (x, u) =
            rw k (take_due_lem now x s xs it ∙ rw e refl) in
          let fired : fire run x u ≡ v =
            fire_lem run x evq u (ground (arith, (taken_rest x s).2 x, to x)) some_q in
          let iu : IsQueue u evq evs =
            IsQueue-frame s u evq evs (taken_rest x s).0 (taken_rest x s).1 iq in
          let x_free : (u.event (event_of x)).queued ≡ false =
            ground (arith, (taken_rest x s).0, free x) in
          let (iv, w, ws) =
            eventq_put-append {s = u} {evq = evq} {ev = event_of x} (omega arith) x_free evs iu in
          let (cs, ts, flags) = eventq_put_rest evq (event_of x) u in
          let itv : IsTimers v xs =
            IsTimers-frame u v xs cs (ap (λ k. k.head) ts) (taken-IsTimers x s xs it) in
          let (t, done, fin) =
            timers_fire_due-Fired fuel (i + 1) now run clock v evq xs (evs ++ event_of x ∷ []) k itv
              iv some_q (λ p h. ground (arith, cs, (taken_rest x s).2 p, to p))
              (λ p h.
                let ne : event_of p ≢ event_of x = ground arith in
                ground (arith, flags (event_of p) ne, (taken_rest x s).0, free p))
              (omega arith) in
          (
            t,
            ap (after_round fuel run i clock s) one_due
                ∙ (ap (timers_fire_due fuel run (i + 1) clock) fired ∙ done),
            Fired-cons s v t evq now x evs xs (λ p. ground (arith, cs, (taken_rest x s).3 p)) e w
                (ws ∙ taken-woken x evq s) fin,
          )
      | inr e ↦
          let none_due : take_due (clock i) s ≡ none =
            rw k (take_due_lem now x s xs it ∙ rw e refl) in
          (
            s,
            ap (after_round fuel run i clock s) none_due,
            Fired-none s evq now evs (x ∷ xs) it iq (due_cut (callout_deadline s) now x xs e).0
                (due_cut (callout_deadline s) now x xs e).1,
          )
    ]
