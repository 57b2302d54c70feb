-- ===== src/Npl/Eventq/Remove.antt =====
-- `ble_npl_eventq_remove` of nimble-rs/src/npl.rs against a list of events.
use nimble_rs.Base.{
  ℕ, zero, suc, ◌<◌, ◌≡◌, ◌≢◌, subst, true, false, some, List, [], ◌∷◌, arith, ◌==◌, if◌then◌else◌,
  has, length, Bool-cases, inl, inr,
}
use nimble_rs.Npl.Store.{Ptr, null, Store}
use nimble_rs.Npl.Eventq.{unlink, remove_loop, eventq_remove}
use nimble_rs.Npl.Eventq.Defs.{IsQueue, event_next}
use nimble_rs.Npl.Chain.{
  before, has-before, has-erase, not-mem-erase, IsDistinct-erase, last-erase, mem-ne-null,
  before-ne, Chain-erase, Chain, last, erase, Chain-frame, has-last,
}

-- The walk stops at `ev`, with the event before it at hand, or at the end of the queue.
remove_loop_lem :
    (fuel : ℕ) (s : Store) (evq ev prev cur : Ptr) (xs : List Ptr)
    → Chain (event_next s) cur xs
    → length xs < fuel
    → remove_loop fuel evq ev prev cur s
      ≡ some (if has ev xs then unlink evq (before ev prev xs) ev s else s)
unfolding remove_loop
remove_loop_lem zero s evq ev prev cur xs c f = elim f [ ]
remove_loop_lem (suc fuel) s evq ev prev cur [] c f = ground arith
remove_loop_lem (suc fuel) s evq ev prev cur (x ∷ xs) c f =
    let rest = remove_loop_lem fuel s evq ev x (s.event x).next xs c.2 (omega arith) in
    rw c.0 (ground arith)

module _ (s : Store) (evq prev ev : Ptr) where
  unlink-head :
      ((unlink evq prev ev s).eventq evq).head
      ≡ (if prev == null then (s.event ev).next else (s.eventq evq).head)
  unfolding unlink
  unlink-head = ground arith

  unlink-next :
      (q : Ptr)
      → q ≢ ev
      → ((unlink evq prev ev s).event q).next ≡ (
          if prev == null
          then (s.event q).next
          else if q == prev
          then (s.event ev).next
          else (s.event q).next)
  unfolding unlink
  unlink-next q ne = ground arith

  -- What the unlinking leaves of the other fields of the queue and of the flags.
  unlink_fields :
      (((unlink evq prev ev s).eventq evq).tail
        ≡ (if (s.eventq evq).tail == ev then prev else (s.eventq evq).tail))
      × (((unlink evq prev ev s).eventq evq).init_tag ≡ (s.eventq evq).init_tag)
      × (((unlink evq prev ev s).event ev).queued ≡ false)
  unfolding unlink
  unlink_fields = ground arith

  unlink_timers :
      ((unlink evq prev ev s).callout ≡ s.callout) × ((unlink evq prev ev s).timers ≡ s.timers)
  unfolding unlink
  unlink_timers = ground arith

  unlink-queued : (q : Ptr) → q ≢ ev → ((unlink evq prev ev s).event q).queued ≡ (s.event q).queued
  unfolding unlink
  unlink-queued q ne = ground arith

module _ (s : Store) (evq ev : Ptr) where
  abbrev after : List Ptr → Store
  after xs = unlink evq (before ev null xs) ev s

  unlink-Chain :
      (xs : List Ptr)
      → IsQueue s evq xs
      → has ev xs ≡ true
      → Chain (event_next (after xs)) ((after xs).eventq evq).head (erase ev xs)
  unlink-Chain [] i h = cc
  unlink-Chain (x ∷ xs) i h = elim (Bool-cases (x == ev)) [
    | inl e ↦
        let u = unlink evq null ev s in
        let rest : Chain (event_next u) (s.event x).next xs =
          Chain-frame (event_next s) (event_next u) (s.event x).next xs i.chain.2 (λ q m.
            let ne : q ≢ ev = ground arith in ground (arith, unlink-next s evq null ev q ne)) in
        let at_head : (s.event x).next ≡ (u.eventq evq).head =
          ground (arith, unlink-head s evq null ev) in
        rw e (subst (λ p. Chain (event_next u) p xs) at_head rest)
    | inr e ↦
        let prev = before ev x xs in
        let apart : prev ≢ ev = before-ne ev x xs i.distinct (ground arith) (ground arith) in
        let u = unlink evq prev ev s in
        let some_prev : prev ≢ null =
          mem-ne-null (event_next s) (s.eventq evq).head prev (x ∷ xs) i.chain
            (has-before ev x xs) in
        let rest : Chain (event_next u) (s.eventq evq).head (x ∷ erase ev xs) =
          Chain-erase (event_next s) (event_next u) (s.eventq evq).head ev x xs i.chain i.distinct
            (ground arith) (λ q n n'. ground (arith, unlink-next s evq prev ev q n'))
            (ground (arith, unlink-next s evq prev ev prev)) in
        let at_head : (s.eventq evq).head ≡ (u.eventq evq).head =
          ground (arith, unlink-head s evq prev ev) in
        rw e (subst (λ p. Chain (event_next u) p (x ∷ erase ev xs)) at_head rest)
  ]

  first-tail :
      (x : Ptr) (xs : List Ptr)
      → IsQueue s evq (x ∷ xs)
      → x ≡ ev
      → ((unlink evq null ev s).eventq evq).tail ≡ last xs
  first-tail x [] i e = ground (arith, unlink_fields s evq null ev)
  first-tail x (y ∷ ys) i e =
      let apart : ev ≢ last (y ∷ ys) = ground (arith, has-last y ys) in
      ground (arith, unlink_fields s evq null ev)

  unlink-tail :
      (xs : List Ptr)
      → IsQueue s evq xs
      → has ev xs ≡ true
      → ((after xs).eventq evq).tail ≡ last (erase ev xs)
  unlink-tail [] i h = cc
  unlink-tail (x ∷ xs) i h = elim (Bool-cases (x == ev)) [
    | inl e ↦ rw e (first-tail x xs i (ground arith))
    | inr e ↦ rw e (
        ground (
          arith,
          unlink_fields s evq (before ev x xs) ev,
          last-erase ev x xs i.distinct (ground arith),
        ))
  ]

  unlink-IsQueue :
      (xs : List Ptr) → IsQueue s evq xs → has ev xs ≡ true → IsQueue (after xs) evq (erase ev xs)
  unlink-IsQueue xs i h = record {
    init = ground (arith, unlink_fields s evq (before ev null xs) ev, i.init);
    chain = unlink-Chain xs i h;
    tail = unlink-tail xs i h;
    distinct = IsDistinct-erase ev xs i.distinct;
    queued = λ p m.
        let ne : p ≢ ev = λ e. cc (not-mem-erase ev xs i.distinct) in
        let same : ((after xs).event p).queued ≡ (s.event p).queued =
          unlink-queued s evq (before ev null xs) ev p ne in
        ground (arith, has-erase p ev xs, i.queued p);
  }

  -- Removing an event that stands in a queue leaves the others, in their order; the event is no
  -- longer queued, and the timers are untouched. The loop ends within one visit more than there are
  -- events.
  pub eventq_remove-erase :
      (fuel : ℕ) (xs : List Ptr)
      → IsQueue s evq xs
      → has ev xs ≡ true
      → length xs < fuel
      → (s' : Store) × (eventq_remove fuel evq ev s ≡ some s')
        × IsQueue s' evq (erase ev xs)
        × ((s'.event ev).queued ≡ false)
        × (s'.callout ≡ s.callout)
        × (s'.timers ≡ s.timers)
  unfolding eventq_remove
  eventq_remove-erase fuel xs i h f =
      let q : (s.event ev).queued ≡ true = i.queued ev h in
      (
        after xs,
        rw (q, remove_loop_lem fuel s evq ev null (s.eventq evq).head xs i.chain f, h),
        unlink-IsQueue xs i h,
        (unlink_fields s evq (before ev null xs) ev).2,
        (unlink_timers s evq (before ev null xs) ev).0,
        (unlink_timers s evq (before ev null xs) ev).1,
      )

  -- Removing an event that does not stand in the queue changes nothing, whether it is queued
  -- elsewhere or not at all.
  pub eventq_remove_absent :
      (fuel : ℕ) (xs : List Ptr)
      → IsQueue s evq xs
      → has ev xs ≡ false
      → length xs < fuel
      → eventq_remove fuel evq ev s ≡ some s
  unfolding eventq_remove
  eventq_remove_absent fuel xs i h f =
      rw (remove_loop_lem fuel s evq ev null (s.eventq evq).head xs i.chain f, h) (ground arith)
