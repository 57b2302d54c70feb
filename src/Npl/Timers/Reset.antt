-- ===== src/Npl/Timers/Reset.antt =====
-- `ble_npl_callout_reset` and `ble_npl_callout_stop` of nimble-rs/src/npl.rs against the sorted list
-- of active callouts.
use nimble_rs.Base.{
  ℕ, ◌+◌, ◌≤◌, ◌<◌, ◌≡◌, ◌≢◌, refl, subst, sym, ap, true, false, none, some, List, [], ◌∷◌, arith,
  ◌==◌, has, length, IsDistinct, Bool-cases, inl, inr,
}
use nimble_rs.Npl.Store.{Ptr, null, Store, event_of, set_callout, wake}
use nimble_rs.Npl.Chain.{Chain, Chain-frame, erase, not-mem-erase}
use nimble_rs.Npl.Timers.{insert_loop, arm, wake_timers, callout_reset, disarm, callout_stop}
use nimble_rs.Npl.Eventq.Defs.{IsQueue, IsQueue-frame}
use nimble_rs.Npl.Eventq.Remove.{eventq_remove-erase, eventq_remove_absent}
use nimble_rs.Npl.Timers.Defs.{
  IsTimers-frame, callout_next, callout_deadline, IsSorted, IsTimers, insert_by,
}
use nimble_rs.Npl.Timers.Unlink.{IsSorted-mono, timers_unlink-erase, erase_absent}
use nimble_rs.Npl.Timers.Insert.{linked, insert_loop-IsTimers, linked_fields}

-- `co` marked active with its new deadline.
abbrev armed : Ptr → ℕ → Store → Store
armed co deadline s =
    set_callout s co (record (s.callout co) { deadline = deadline; active = true })

length-erase-le : (co : Ptr) (xs : List Ptr) → length (erase co xs) ≤ length xs
length-erase-le co [] = omega arith
length-erase-le co (x ∷ xs) = ground (arith, length-erase-le co xs)

insert_by-congr :
    (d d' : Ptr → ℕ) (co : Ptr) (deadline : ℕ) (xs : List Ptr)
    → ((q : Ptr) → has q xs ≡ true → d' q ≡ d q)
    → insert_by d' co deadline xs ≡ insert_by d co deadline xs
insert_by-congr d d' co deadline [] same = refl
insert_by-congr d d' co deadline (x ∷ xs) same =
    let rest = insert_by-congr d d' co deadline xs (λ q h. same q (ground arith)) in
    ground (arith, same x)

-- What the arming of `co` for `deadline` makes of a list of timers that does not hold it.
pub record Armed (s t : Store) (co : Ptr) (deadline : ℕ) (xs : List Ptr) : Type 0 where
  pub timers : IsTimers t (insert_by (callout_deadline s) co deadline xs)
  pub due : (t.callout co).deadline ≡ deadline
  pub others : (p : Ptr) → p ≢ co → (t.callout p).deadline ≡ (s.callout p).deadline
  pub waker : t.timers.waker ≡ none
  pub woken : t.woken ≡ (wake s.timers.waker s).woken

module _ (fuel : ℕ) (s : Store) (co : Ptr) (deadline : ℕ) (xs : List Ptr)
    (c : Chain (callout_next s) s.timers.head xs) (u : IsDistinct xs)
    (so : IsSorted (callout_deadline s) xs)
    (others : (p : Ptr) → p ≢ co → (s.callout p).active ≡ has p xs) (out : has co xs ≡ false)
    (some_co : co ≢ null) (f : length xs < fuel) where
  abbrev base : Store
  base = armed co deadline s

  spared : (q : Ptr) → has q xs ≡ true → callout_deadline base q ≡ callout_deadline s q
  spared q h = ground arith

  inserted :
      (insert_loop fuel co deadline null s.timers.head base ≡ some (linked base co deadline xs))
      × IsTimers (linked base co deadline xs) (insert_by (callout_deadline base) co deadline xs)
  inserted =
      insert_loop-IsTimers fuel base co deadline xs
        (Chain-frame (callout_next s) (callout_next base) s.timers.head xs c (λ q h. ground arith))
        u (IsSorted-mono (callout_deadline s) (callout_deadline base) xs spared so)
        (λ p ne. ground (arith, others p ne)) (ground arith) (ground arith) out some_co f

  arm-Armed : (t : Store) × (arm fuel co deadline s ≡ some t) × Armed s t co deadline xs
  unfolding arm wake_timers
  arm-Armed = (
    wake_timers (linked base co deadline xs),
    ap (λ o. elim o [ none ↦ none | some t ↦ some (wake_timers t) ]) inserted.0,
    record {
      timers =
          rw (← insert_by-congr (callout_deadline s) (callout_deadline base) co deadline xs spared)
            (record {
              chain = inserted.1.chain;
              distinct = inserted.1.distinct;
              sorted = inserted.1.sorted;
              active = inserted.1.active;
            });
      due = ground (arith, linked_fields base co deadline xs co);
      others = λ p ne. ground (arith, linked_fields base co deadline xs p);
      waker = refl;
      woken = ground (arith, linked_fields base co deadline xs co);
    },
  )

module _ (fuel now : ℕ) (s : Store) (co ticks : ℕ) (xs : List Ptr) (i : IsTimers s xs)
    (some_co : co ≢ null) (f : length xs < fuel) where
  -- In a well-formed list of active callouts, arming a callout, active or not, moves it to its
  -- place: behind all that are due no later than `now + ticks`. Its deadline is set, the others'
  -- are kept, and whoever waits for the timers is woken. The loops end within one visit more than
  -- there are callouts.
  pub callout_reset-insert :
      (t : Store) × (callout_reset fuel now co ticks s ≡ some t)
      × IsTimers t (insert_by (callout_deadline s) co (now + ticks) (erase co xs))
      × ((t.callout co).deadline ≡ now + ticks)
      × ((p : Ptr) → p ≢ co → (t.callout p).deadline ≡ (s.callout p).deadline)
      × (t.timers.waker ≡ none)
      × (t.woken ≡ (wake s.timers.waker s).woken)
  unfolding callout_reset
  callout_reset-insert = elim (Bool-cases (has co xs)) [
    | inl h ↦
        let busy : (s.callout co).active ≡ true = ground (arith, i.active co) in
        let (t, e, un) = timers_unlink-erase fuel s co xs i h f in
        let (t', e', a) =
          arm-Armed fuel t co (now + ticks) (erase co xs) un.chain un.distinct un.sorted un.active
            (not-mem-erase co xs i.distinct) some_co (omega (arith, length-erase-le co xs)) in
        (
          t',
          rw (busy, e) e',
          rw
              (← insert_by-congr (callout_deadline s) (callout_deadline t) co (now + ticks)
                (erase co xs) (λ q m. (un.kept q).0))
              a.timers,
          a.due,
          (λ p ne. ground (arith, a.others p ne, un.kept p)),
          a.waker,
          ground (arith, a.woken, un.waker, un.woken),
        )
    | inr h ↦
        let idle : (s.callout co).active ≡ false = ground (arith, i.active co) in
        let (t, e, a) =
          arm-Armed fuel s co (now + ticks) xs i.chain i.distinct i.sorted (λ p ne. i.active p) h
            some_co f in
        (t, rw idle e, rw (erase_absent co xs h) a.timers, a.due, a.others, a.waker, a.woken)
  ]

  -- The first half of a stop takes the callout out of the active ones.
  disarm-erase :
      (t : Store) × (disarm fuel co s ≡ some t)
      × IsTimers t (erase co xs)
      × ((t.callout co).active ≡ false)
      × ((t.callout co).evq ≡ (s.callout co).evq)
      × (t.event ≡ s.event)
      × (t.eventq ≡ s.eventq)
  unfolding disarm
  disarm-erase = elim (Bool-cases (has co xs)) [
    | inl h ↦
        let busy : (s.callout co).active ≡ true = ground (arith, i.active co) in
        let (t, e, un) = timers_unlink-erase fuel s co xs i h f in
        let t' = set_callout t co (record (t.callout co) { active = false }) in
        (
          t',
          rw (busy, e) refl,
          record {
            chain =
                Chain-frame (callout_next t) (callout_next t') t.timers.head (erase co xs) un.chain
                  (λ q m. ground arith);
            distinct = un.distinct;
            sorted =
                IsSorted-mono (callout_deadline t) (callout_deadline t') (erase co xs)
                  (λ q m. ground arith) un.sorted;
            active = λ p. elim (Bool-cases (p == co)) [
              | inl e ↦ ground (arith, not-mem-erase co xs i.distinct)
              | inr e ↦ let ne : p ≢ co = ground arith in ground (arith, un.active p ne)
            ];
          },
          ground arith,
          ground (arith, un.kept co),
          un.rest.0,
          un.rest.1,
        )
    | inr h ↦
        let idle : (s.callout co).active ≡ false = ground (arith, i.active co) in
        (s, rw idle refl, rw (erase_absent co xs h) i, idle, refl, refl, refl)
  ]

  -- In a well-formed list of active callouts, stopping a callout that has a queue takes it out of
  -- the active ones and its event out of that queue; the other callouts, and the other events of
  -- the queue, stay in their order. The loops end within one visit more than there are nodes.
  pub callout_stop-erase :
      (evs : List Ptr)
      → (s.callout co).evq ≢ null
      → IsQueue s (s.callout co).evq evs
      → length evs < fuel
      → (t : Store) × (callout_stop fuel co s ≡ some t)
        × IsTimers t (erase co xs)
        × ((t.callout co).active ≡ false)
        × IsQueue t (s.callout co).evq (erase (event_of co) evs)
  unfolding callout_stop
  callout_stop-erase evs some_q q f' =
      let (t, e, it, idle, same_q, ev, qs) = disarm-erase in
      let some_q' : ((t.callout co).evq == null) ≡ false = ground arith in
      let qt : IsQueue t (s.callout co).evq evs =
        IsQueue-frame s t (s.callout co).evq evs ev qs q in
      elim (Bool-cases (has (event_of co) evs)) [
        | inl h ↦
            let (u, r, iu, off, cs, ts) =
              eventq_remove-erase t (s.callout co).evq (event_of co) fuel evs qt h f' in
            (
              u,
              rw (e, callout_stop, some_q', same_q) r,
              IsTimers-frame t u (erase co xs) cs (ap (λ k. k.head) ts) it,
              ground arith,
              iu,
            )
        | inr h ↦
            let r = eventq_remove_absent t (s.callout co).evq (event_of co) fuel evs qt h f' in
            (
              t,
              rw (e, callout_stop, some_q', same_q) r,
              it,
              idle,
              subst (λ ys. IsQueue t (s.callout co).evq ys) (sym (erase_absent (event_of co) evs h))
                  qt,
            )
      ]
