-- ===== src/Npl/Store.antt =====
-- The state that the porting layer keeps behind raw pointers (nimble-rs/src/npl.rs): events, event
-- queues, callouts and the list of timers. A pointer is a number and `null` is 0; each kind of
-- object has its own address space. A waker is a number, and `woken` records the wakes in order.
use nimble_rs.Base.{ℕ, ◌+◌, Bool, Option, none, some, List, [], ◌∷◌, ◌++◌, update}

abbrev pub Ptr : Type 0
Ptr = ℕ

abbrev pub null : Ptr
null = 0

abbrev pub Waker : Type 0
Waker = ℕ

-- `func` is the callback's address, `none` for a null function pointer.
pub record Event : Type 0 where
  pub next : Ptr
  pub func : Option Ptr
  pub arg : Ptr
  pub queued : Bool

pub record EventQueue : Type 0 where
  pub init_tag : Ptr
  pub head : Ptr
  pub tail : Ptr
  pub waker : Option Waker

-- The event inside a callout stands in the event space, at `event_of` the callout's address.
pub record Callout : Type 0 where
  pub next : Ptr
  pub deadline : ℕ
  pub active : Bool
  pub evq : Ptr

pub record Timers : Type 0 where
  pub head : Ptr
  pub waker : Option Waker

pub record Store : Type 0 where
  pub event : Ptr → Event
  pub eventq : Ptr → EventQueue
  pub callout : Ptr → Callout
  pub timers : Timers
  pub woken : List Waker

-- `addr_of_mut!((*co).event)` in the layout of a 64-bit target.
abbrev pub event_of : Ptr → Ptr
event_of co = co + 32

abbrev pub set_event : Store → Ptr → Event → Store
set_event s p e = record s { event = update s.event p e }

abbrev pub set_eventq : Store → Ptr → EventQueue → Store
set_eventq s p q = record s { eventq = update s.eventq p q }

abbrev pub set_callout : Store → Ptr → Callout → Store
set_callout s p c = record s { callout = update s.callout p c }

-- `if let Some(waker) = waker { waker.wake() }`
abbrev pub wake : Option Waker → Store → Store
wake waker s = record s { woken = elim waker [ none ↦ s.woken | some w ↦ s.woken ++ w ∷ [] ] }
