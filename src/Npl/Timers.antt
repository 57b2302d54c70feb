-- ===== src/Npl/Timers.antt =====
-- Callouts and the list of active timers of nimble-rs/src/npl.rs: a singly linked list, sorted by
-- deadline, and a waker for whoever services it. An instant is a number of milliseconds, and each
-- reading of the clock is an argument; loops take fuel, and `none` says that it ran out.
pub mod Defs
pub mod Unlink
pub mod Insert
pub mod Reset
pub mod Fire
use nimble_rs.Base.{
  ℕ, zero, suc, ◌+◌, ◌-◌, ◌%◌, ◌^◌, Bool, true, false, Option, none, some, ◌==◌, leb, if◌then◌else◌,
  not, ◌&&◌,
}
use nimble_rs.Npl.Store.{
  Ptr, null, Waker, Event, Callout, Timers, Store, event_of, set_event, set_callout, wake,
}
use nimble_rs.Npl.Eventq.{eventq_put, eventq_remove}

-- `ble_npl_callout_init`
pub callout_init : Ptr → Ptr → Option Ptr → Ptr → Store → Store
callout_init co evq func arg s =
    set_event (set_callout s co (record { next = null; deadline = 0; active = false; evq = evq }))
      (event_of co) (record { next = null; func = func; arg = arg; queued = false })

-- What `timers_unlink` does at the callout it looks for, with `prev` before it.
pub unlink : Ptr → Ptr → Store → Store
unlink prev co s =
    let rest = (s.callout co).next in
    let s' =
      if prev == null
      then record s { timers = record (s.timers) { head = rest } }
      else set_callout s prev (record (s.callout prev) { next = rest }) in
    set_callout s' co (record (s'.callout co) { next = null })

-- The loop of `timers_unlink`, from the callout `cur` with `prev` before it.
pub unlink_loop : ℕ → Ptr → Ptr → Ptr → Store → Option Store
unfolding unlink
unlink_loop zero co prev cur s = none
unlink_loop (suc fuel) co prev cur s =
    let more = unlink_loop fuel co cur (s.callout cur).next s in
    if cur == null then some s else if cur == co then some (unlink prev co s) else more

-- `timers_unlink`
pub timers_unlink : ℕ → Ptr → Store → Option Store
unfolding unlink_loop
timers_unlink fuel co s = unlink_loop fuel co null s.timers.head s

-- Links `co` in between `prev` and `cur`.
pub link : Ptr → Ptr → Ptr → Store → Store
link co prev cur s =
    let s' = set_callout s co (record (s.callout co) { next = cur }) in
    if prev == null
    then record s' { timers = record (s'.timers) { head = co } }
    else set_callout s' prev (record (s'.callout prev) { next = co })

-- The search of `ble_npl_callout_reset` for the first callout with a later deadline.
pub insert_loop : ℕ → Ptr → ℕ → Ptr → Ptr → Store → Option Store
unfolding link
insert_loop zero co deadline prev cur s = none
insert_loop (suc fuel) co deadline prev cur s =
    let more = insert_loop fuel co deadline cur (s.callout cur).next s in
    if cur == null
    then some (link co prev cur s)
    else if leb (s.callout cur).deadline deadline
    then more
    else some (link co prev cur s)

-- `timers.waker.take()`, and the wake that follows.
pub wake_timers : Store → Store
wake_timers s = wake s.timers.waker (record s { timers = record (s.timers) { waker = none } })

-- The rest of `ble_npl_callout_reset`, once the callout is out of the list.
pub arm : ℕ → Ptr → ℕ → Store → Option Store
unfolding insert_loop wake_timers
arm fuel co deadline s =
    let s' = set_callout s co (record (s.callout co) { deadline = deadline; active = true }) in
    elim (insert_loop fuel co deadline null s'.timers.head s') [
      | none ↦ none
      | some t ↦ some (wake_timers t)
    ]

-- `ble_npl_callout_reset`, with `now` the clock at its start.
pub callout_reset : ℕ → ℕ → Ptr → ℕ → Store → Option Store
unfolding timers_unlink arm
callout_reset fuel now co ticks s =
    if (s.callout co).active
    then elim (timers_unlink fuel co s) [ none ↦ none | some t ↦ arm fuel co (now + ticks) t ]
    else arm fuel co (now + ticks) s

-- The first half of `ble_npl_callout_stop`, under `with_timers`.
pub disarm : ℕ → Ptr → Store → Option Store
unfolding timers_unlink
disarm fuel co s =
    if (s.callout co).active
    then elim (timers_unlink fuel co s) [
      | none ↦ none
      | some t ↦ some (set_callout t co (record (t.callout co) { active = false }))
    ]
    else some s

-- `ble_npl_callout_stop`, and with it `ble_npl_callout_deinit`.
pub callout_stop : ℕ → Ptr → Store → Option Store
callout_stop fuel co s = elim (disarm fuel co s) [
  | none ↦ none
  | some t ↦
      if (t.callout co).evq == null
      then some t
      else eventq_remove fuel (t.callout co).evq (event_of co) t
]

-- `ble_npl_callout_is_active`
pub callout_is_active : Ptr → Store → Bool
callout_is_active co s = (s.callout co).active

-- `ble_npl_callout_get_ticks`
pub callout_get_ticks : Ptr → Store → ℕ
callout_get_ticks co s = (s.callout co).deadline % 2 ^ 32

-- `ble_npl_callout_remaining_ticks`
unfoldable pub callout_remaining_ticks : Ptr → ℕ → Store → ℕ
callout_remaining_ticks co now s = (s.callout co).deadline % 2 ^ 32 - now

-- `ble_npl_callout_set_arg`
pub callout_set_arg : Ptr → Ptr → Store → Store
callout_set_arg co arg s = set_event s (event_of co) (record (s.event (event_of co)) { arg = arg })

-- `timers_poll_next_deadline`
unfoldable pub timers_poll_next_deadline : Waker → Store → Option ℕ × Store
timers_poll_next_deadline waker s = (
  if s.timers.head == null then none else some (s.callout s.timers.head).deadline,
  record s { timers = record (s.timers) { waker = some waker } },
)

-- One round of `timers_fire_due` under `with_timers`: the head, taken out if it is due.
pub take_due : ℕ → Store → Option (Ptr × Store)
take_due now s =
    let co = s.timers.head in
    let c = s.callout co in
    if not (co == null) && leb c.deadline now
    then some (
      co,
      set_callout (record s { timers = record (s.timers) { head = c.next } }) co
          (record c { next = null; active = false }),
    )
    else none

-- What `timers_fire_due` does with a callout that is due. `run ev` stands for `ble_npl_event_run`,
-- whose callbacks are the host's.
pub fire : (Ptr → Store → Store) → Ptr → Store → Store
unfolding eventq_put
fire run co s =
    let evq = (s.callout co).evq in
    if evq == null then run (event_of co) s else eventq_put evq (event_of co) s

-- `timers_fire_due`; `clock i` is the reading of the clock in round `i`.
pub timers_fire_due : ℕ → (Ptr → Store → Store) → ℕ → (ℕ → ℕ) → Store → Option Store
timers_fire_due zero run i clock s = none
timers_fire_due (suc fuel) run i clock s = elim (take_due (clock i) s) [
  | none ↦ some s
  | some (co, t) ↦ timers_fire_due fuel run (i + 1) clock (fire run co t)
]
