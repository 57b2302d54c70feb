-- ===== src/Npl/Eventq/Fifo.antt =====
-- `ble_npl_eventq_put` and `eventq_try_pop` of nimble-rs/src/npl.rs against a list of events.
use nimble_rs.Base.{
  ◌≡◌, ◌≢◌, ◌⊎◌, ◌||◌, subst, true, false, none, List, [], ◌∷◌, ◌++◌, arith, ◌==◌, has,
}
use nimble_rs.Npl.Store.{Ptr, null, Store, wake}
use nimble_rs.Npl.Eventq.{eventq_put, eventq_try_pop, link_last, unlink_first}
use nimble_rs.Npl.Eventq.Defs.{IsQueue, event_next}
use nimble_rs.Npl.Chain.{
  Chain, last, has-append, last-append, IsDistinct-append, Chain-frame, Chain-append, has-last,
  Chain-last,
}

module _ {s : Store} {evq ev : Ptr} (some_ev : ev ≢ null) (free : (s.event ev).queued ≡ false) where
  not-mem : (xs : List Ptr) → IsQueue s evq xs → has ev xs ≡ false
  not-mem xs i = ground (arith, i.queued ev)

  link_last-IsQueue :
      (xs : List Ptr) → IsQueue s evq xs → IsQueue (link_last evq ev s) evq (xs ++ ev ∷ [])
  unfolding link_last
  link_last-IsQueue [] i =
      let none_yet : ((s.eventq evq).tail == null) ≡ true = ground arith in
      rw (none_yet, link_last)
        (record {
          init = ground arith;
          chain = ground arith;
          tail = ground arith;
          distinct = ground arith;
          queued = ground arith;
        })
  link_last-IsQueue (x ∷ xs) i =
      let out : has ev (x ∷ xs) ≡ false = not-mem (x ∷ xs) i in
      let linked : ((s.eventq evq).tail == null) ≡ false =
        ground (arith, Chain-last (event_next s) (s.eventq evq).head x xs i.chain) in
      let apart : ev ≢ (s.eventq evq).tail = ground (arith, has-last x xs) in
      let kept : (s.eventq evq).head ≡ ((link_last evq ev s).eventq evq).head = ground arith in
      record {
        init = ground arith;
        chain =
            subst (λ p. Chain (event_next (link_last evq ev s)) p ((x ∷ xs) ++ ev ∷ [])) kept
              (Chain-append (event_next s) (event_next (link_last evq ev s)) (s.eventq evq).head ev
                x xs i.chain i.distinct (λ q h ne. ground arith) (ground arith) some_ev
                (ground arith));
        tail = ground (arith, last-append ev (x ∷ xs));
        distinct = IsDistinct-append ev (x ∷ xs) i.distinct out;
        queued = λ p h. ground (arith, has-append p ev (x ∷ xs), i.queued p);
      }

  -- A put of an event that is not queued, into a queue that holds `xs`: the queue then holds `xs`
  -- and the event behind them, in this order; the waker that was registered is taken and woken.
  pub eventq_put-append :
      (xs : List Ptr)
      → IsQueue s evq xs
      → IsQueue (eventq_put evq ev s) evq (xs ++ ev ∷ [])
        × (((eventq_put evq ev s).eventq evq).waker ≡ none)
        × ((eventq_put evq ev s).woken ≡ (wake (s.eventq evq).waker s).woken)
  unfolding eventq_put
  eventq_put-append xs i =
      let open_now : ((s.event ev).queued || (s.eventq evq).init_tag == null) ≡ false =
        ground (arith, i.init) in
      rw open_now (link_last-IsQueue xs i, ground arith, ground arith)

-- A put touches neither the callouts and timers nor any other event's flag.
pub eventq_put_rest :
    (evq ev : Ptr) (s : Store)
    → ((eventq_put evq ev s).callout ≡ s.callout)
      × ((eventq_put evq ev s).timers ≡ s.timers)
      × ((p : Ptr) → p ≢ ev → ((eventq_put evq ev s).event p).queued ≡ (s.event p).queued)
unfolding eventq_put
eventq_put_rest evq ev s = (ground arith, ground arith, λ p ne. ground arith)

-- A put leaves the callbacks of all events.
pub eventq_put-func :
    (evq ev : Ptr) (s : Store) (p : Ptr) → ((eventq_put evq ev s).event p).func ≡ (s.event p).func
unfolding eventq_put
eventq_put-func evq ev s p = ground arith

-- A put of an event that is queued already, or into a queue that is not initialised, does nothing.
pub eventq_put_ignored :
    (evq ev : Ptr) (s : Store)
    → ((s.event ev).queued ≡ true) ⊎ ((s.eventq evq).init_tag ≡ null)
    → eventq_put evq ev s ≡ s
unfolding eventq_put
eventq_put_ignored evq ev s h = ground arith

module _ {s : Store} {evq : Ptr} (x : Ptr) where
  unlink_first-Chain :
      (xs : List Ptr)
      → IsQueue s evq (x ∷ xs)
      → Chain (event_next (unlink_first evq s)) ((unlink_first evq s).eventq evq).head xs
  unfolding unlink_first
  unlink_first-Chain xs i =
      let rest : Chain (event_next (unlink_first evq s)) (s.event x).next xs =
        Chain-frame (event_next s) (event_next (unlink_first evq s)) (s.event x).next xs i.chain.2
          (λ q h. ground arith) in
      let e : (s.event x).next ≡ ((unlink_first evq s).eventq evq).head = ground arith in
      subst (λ p. Chain (event_next (unlink_first evq s)) p xs) e rest

  unlink_first-tail :
      (xs : List Ptr) → IsQueue s evq (x ∷ xs) → ((unlink_first evq s).eventq evq).tail ≡ last xs
  unfolding unlink_first
  unlink_first-tail [] i = ground arith
  unlink_first-tail (y ∷ ys) i = ground arith

  unlink_first-IsQueue :
      (xs : List Ptr)
      → IsQueue s evq (x ∷ xs)
      → IsQueue (unlink_first evq s) evq xs × (((unlink_first evq s).event x).queued ≡ false)
  unfolding unlink_first
  unlink_first-IsQueue xs i = (
    record {
      init = ground arith;
      chain = unlink_first-Chain xs i;
      tail = unlink_first-tail xs i;
      distinct = i.distinct.1;
      queued = λ p h. ground (arith, i.queued p);
    },
    ground arith,
  )

  -- A pop from a queue that holds `x` and then `xs` hands out `x`, which is then not queued, and
  -- leaves `xs`.
  pub eventq_try_pop-cons :
      (xs : List Ptr)
      → IsQueue s evq (x ∷ xs)
      → ((eventq_try_pop evq s).0 ≡ x)
        × IsQueue (eventq_try_pop evq s).1 evq xs
        × (((eventq_try_pop evq s).1.event x).queued ≡ false)
  unfolding eventq_try_pop
  eventq_try_pop-cons xs i =
      let full : ((s.eventq evq).head == null) ≡ false = ground arith in
      let (q, f) = unlink_first-IsQueue xs i in rw full (i.chain.0, q, f)

  -- The other events' flags stay as they are.
  pub eventq_try_pop-flags :
      (xs : List Ptr) (p : Ptr)
      → IsQueue s evq (x ∷ xs)
      → p ≢ x
      → ((eventq_try_pop evq s).1.event p).queued ≡ (s.event p).queued
  unfolding eventq_try_pop unlink_first
  eventq_try_pop-flags xs p i ne = ground (arith, i.chain.0)

-- A pop from an empty queue hands out null and changes nothing.
pub eventq_try_pop-nil :
    {s : Store} {evq : Ptr} → IsQueue s evq [] → eventq_try_pop evq s ≡ (null, s)
unfolding eventq_try_pop
eventq_try_pop-nil i = ground arith
