-- ===== src/Npl/Eventq/Poll.antt =====
-- No wake is lost between the poll of a queue and the next put.
use nimble_rs.Base.{
  ◌≡◌, ◌≢◌, refl, ap, ◌∙◌, true, false, none, some, List, [], ◌∷◌, ◌++◌, arith, ◌==◌,
}
use nimble_rs.Npl.Store.{Ptr, null, Waker, Store, wake, set_eventq}
use nimble_rs.Npl.Eventq.{eventq_poll, eventq_put, eventq_try_pop, unlink_first}
use nimble_rs.Npl.Eventq.Defs.{IsQueue}
use nimble_rs.Npl.Eventq.Fifo.{eventq_put-append}

-- A poll of a queue that holds events is ready with the first, as a pop is.
pub eventq_poll-cons :
    (t : Store) (evq : Ptr) (waker : Waker) (x : Ptr) (xs : List Ptr)
    → IsQueue t evq (x ∷ xs)
    → eventq_poll evq waker t ≡ (some x, (eventq_try_pop evq t).1)
unfolding eventq_poll eventq_try_pop
eventq_poll-cons t evq waker x xs i =
    let live : x ≢ null = i.chain.1 in
    let full : ((t.eventq evq).head == null) ≡ false = ground (arith, i.chain.0) in
    rw full (ap (λ y. (some y, unlink_first evq t)) i.chain.0)

module _ (s : Store) (evq : Ptr) where
  abbrev pub registered : Waker → Store
  registered waker = set_eventq s evq (record (s.eventq evq) { waker = some waker })

  pub eventq_poll-nil :
      (waker : Waker) → IsQueue s evq [] → eventq_poll evq waker s ≡ (none, registered waker)
  unfolding eventq_poll
  eventq_poll-nil waker i =
      let none_there : ((s.eventq evq).head == null) ≡ true = ground (arith, i.chain) in
      rw none_there refl

  pub registered-IsQueue : (waker : Waker) → IsQueue s evq [] → IsQueue (registered waker) evq []
  registered-IsQueue waker i = record {
    init = ground (arith, i.init);
    chain = ground (arith, i.chain);
    tail = ground (arith, i.tail);
    distinct = tt;
    queued = λ p h. absurd (ground arith);
  }

module _ (s : Store) (evq ev : Ptr) (some_ev : ev ≢ null) (free : (s.event ev).queued ≡ false) where
  -- A poll of an empty queue is pending; the put of an event that follows wakes exactly the waker of
  -- that poll, and the next poll, with any waker, is ready with the event.
  pub eventq_poll-put :
      (waker next : Waker)
      → IsQueue s evq []
      → ((eventq_poll evq waker s).0 ≡ none)
        × ((eventq_put evq ev (eventq_poll evq waker s).1).woken ≡ s.woken ++ waker ∷ [])
        × ((eventq_poll evq next (eventq_put evq ev (eventq_poll evq waker s).1)).0 ≡ some ev)
  eventq_poll-put waker next i =
      let at = eventq_poll-nil s evq waker i in
      let (q, w, woken) =
        eventq_put-append {s = registered s evq waker} {evq = evq} {ev = ev} some_ev free []
          (registered-IsQueue s evq waker i) in
      let was : ((registered s evq waker).eventq evq).waker ≡ some waker = ground arith in
      (
        ap (λ r. r.0) at,
        ap (λ r. (eventq_put evq ev r.1).woken) at
            ∙ woken
            ∙ ap (λ v. (wake v (registered s evq waker)).woken) was,
        ap (λ r. (eventq_poll evq next (eventq_put evq ev r.1)).0) at
            ∙ ap (λ r. r.0)
                (eventq_poll-cons (eventq_put evq ev (registered s evq waker)) evq next ev [] q),
      )
