-- ===== src/Npl/Eventq.antt =====
-- Events and event queues of nimble-rs/src/npl.rs: an intrusive, singly linked FIFO with a `queued`
-- flag on each event and a waker for whoever polls the queue.
pub mod Defs
pub mod Fifo
pub mod Held
pub mod Remove
pub mod Poll
use nimble_rs.Base.{
  ℕ, zero, suc, ◌||◌, Bool, true, false, Option, none, some, ◌==◌, if◌then◌else◌, not,
}
use nimble_rs.Npl.Store.{Ptr, null, Waker, Store, set_event, set_eventq, wake}

-- `ble_npl_event_init`
pub event_init : Ptr → Option Ptr → Ptr → Store → Store
event_init ev func arg s =
    set_event s ev (record { next = null; func = func; arg = arg; queued = false })

-- `ble_npl_event_deinit`
pub event_deinit : Ptr → Store → Store
event_deinit ev s = set_event s ev (record (s.event ev) { func = none; queued = false })

-- `ble_npl_event_is_queued`
pub event_is_queued : Ptr → Store → Bool
event_is_queued ev s = (s.event ev).queued

-- `ble_npl_event_get_arg`
pub event_get_arg : Ptr → Store → Ptr
event_get_arg ev s = (s.event ev).arg

-- `ble_npl_event_set_arg`
pub event_set_arg : Ptr → Ptr → Store → Store
event_set_arg ev arg s = set_event s ev (record (s.event ev) { arg = arg })

-- `ble_npl_eventq_init`
pub eventq_init : Ptr → Store → Store
eventq_init evq s =
    set_eventq s evq (record { init_tag = evq; head = null; tail = null; waker = none })

-- `ble_npl_eventq_deinit`
pub eventq_deinit : Ptr → Store → Store
eventq_deinit evq s =
    wake (s.eventq evq).waker
      (set_eventq s evq (record { init_tag = null; head = null; tail = null; waker = none }))

-- The branch of `ble_npl_eventq_put` that links the event in.
pub link_last : Ptr → Ptr → Store → Store
link_last evq ev s =
    let q = s.eventq evq in
    let s1 = set_event s ev (record (s.event ev) { next = null; queued = true }) in
    let s2 =
      if q.tail == null
      then set_eventq s1 evq (record q { head = ev; tail = ev; waker = none })
      else set_eventq (set_event s1 q.tail (record (s1.event q.tail) { next = ev })) evq
          (record q { tail = ev; waker = none }) in
    wake q.waker s2

-- `ble_npl_eventq_put`
unfoldable pub eventq_put : Ptr → Ptr → Store → Store
unfolding link_last
eventq_put evq ev s =
    if (s.event ev).queued || (s.eventq evq).init_tag == null then s else link_last evq ev s

-- The branch of `eventq_try_pop` that takes the head out.
unfoldable pub unlink_first : Ptr → Store → Store
unlink_first evq s =
    let q = s.eventq evq in
    let e = s.event q.head in
    set_event
      (set_eventq s evq
        (record q { head = e.next; tail = if e.next == null then null else q.tail }))
      q.head (record e { next = null; queued = false })

-- `eventq_try_pop`
unfoldable pub eventq_try_pop : Ptr → Store → Ptr × Store
unfolding unlink_first
eventq_try_pop evq s =
    let ev = (s.eventq evq).head in if ev == null then (ev, s) else (ev, unlink_first evq s)

-- `eventq_poll`: `none` is `Poll::Pending`.
pub eventq_poll : Ptr → Waker → Store → Option Ptr × Store
unfolding eventq_try_pop
eventq_poll evq waker s =
    let q = s.eventq evq in
    let (ev, s') = eventq_try_pop evq s in
    if q.head == null
    then (none, set_eventq s evq (record q { waker = some waker }))
    else (some ev, s')

-- What `ble_npl_eventq_remove` does at the node it looks for, with `prev` before it.
pub unlink : Ptr → Ptr → Ptr → Store → Store
unlink evq prev ev s =
    let q = s.eventq evq in
    let rest = (s.event ev).next in
    let tail = if q.tail == ev then prev else q.tail in
    let s' =
      if prev == null
      then set_eventq s evq (record q { head = rest; tail = tail })
      else set_event (set_eventq s evq (record q { tail = tail })) prev
          (record (s.event prev) { next = rest }) in
    set_event s' ev (record (s'.event ev) { next = null; queued = false })

-- The loop of `ble_npl_eventq_remove`, from the node `cur` with `prev` before it. The fuel bounds
-- the nodes visited; `none` says that it ran out.
pub remove_loop : ℕ → Ptr → Ptr → Ptr → Ptr → Store → Option Store
unfolding unlink
remove_loop zero evq ev prev cur s = none
remove_loop (suc fuel) evq ev prev cur s =
    let more = remove_loop fuel evq ev cur (s.event cur).next s in
    if cur == null then some s else if cur == ev then some (unlink evq prev ev s) else more

-- `ble_npl_eventq_remove`; `none` if the walk outlasts the fuel.
unfoldable pub eventq_remove : ℕ → Ptr → Ptr → Store → Option Store
unfolding remove_loop
eventq_remove fuel evq ev s =
    let walk = remove_loop fuel evq ev null (s.eventq evq).head s in
    if not (s.event ev).queued then some s else walk

-- `ble_npl_eventq_is_empty`
pub eventq_is_empty : Ptr → Store → Bool
eventq_is_empty evq s = (s.eventq evq).head == null
