-- ===== src/Npl/Eventq/Defs.antt =====
-- What an event queue of nimble-rs/src/npl.rs stands for: a list of events.
use nimble_rs.Base.{◌≡◌, ◌≢◌, true, List, has, IsDistinct}
use nimble_rs.Npl.Store.{Ptr, null, Store}
use nimble_rs.Npl.Chain.{Chain, last}

abbrev pub event_next : Store → Ptr → Ptr
event_next s p = (s.event p).next

-- The queue is initialised and holds exactly the events `xs`, in the order of their delivery.
pub record IsQueue (s : Store) (evq : Ptr) (xs : List Ptr) : Type 0 where
  pub init : (s.eventq evq).init_tag ≢ null
  pub chain : Chain (event_next s) (s.eventq evq).head xs
  pub tail : (s.eventq evq).tail ≡ last xs
  pub distinct : IsDistinct xs
  pub queued : (p : Ptr) → has p xs ≡ true → (s.event p).queued ≡ true

-- A queue is the same in two stores with the same events and queues.
pub IsQueue-frame :
    (s t : Store) (evq : Ptr) (xs : List Ptr)
    → t.event ≡ s.event
    → t.eventq ≡ s.eventq
    → IsQueue s evq xs
    → IsQueue t evq xs
IsQueue-frame s t evq xs e e' i = record {
  init = rw e' i.init;
  chain = rw (e, e') i.chain;
  tail = rw e' i.tail;
  distinct = i.distinct;
  queued = rw e i.queued;
}
