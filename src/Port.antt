-- ===== src/Port.antt =====
-- The loops of nimble-rs/src/port.rs that `Ble::run` polls, with `ble_npl_event_run` of
-- nimble-rs/src/npl.rs. A callback of the C host is a parameter, over the store and the host's own state.
-- One poll of an endless loop is a loop until it waits, on fuel.
pub mod Events
pub mod Timers
pub mod Drain
mod Examples
use nimble_rs.Base.{
  ℕ, zero, suc, ◌+◌, if◌then◌else◌, Bool, true, false, ◌||◌, Option, none, some, ◌==◌, leb,
}
use nimble_rs.Npl.Store.{Ptr, null, Waker, Store}
use nimble_rs.Npl.Eventq.{eventq_try_pop, eventq_poll}
use nimble_rs.Npl.Timers.{timers_poll_next_deadline, timers_fire_due}

-- The store and the C host.
abbrev pub State : Type 0 → Type 0
State H = Store × H

module _ {H : Type 0} (call : (func ev : Ptr) → State H → State H) where
  abbrev pub called : Option Ptr → Ptr → State H → State H
  called none ev st = st
  called (some func) ev st = call func ev st

  -- `ble_npl_event_run`
  unfoldable pub event_run : Ptr → State H → State H
  event_run ev st = called (st.0.event ev).func ev st

  module _ (dflt_evq : Ptr) where
    -- `drain_events`
    unfoldable pub drain_events : ℕ → State H → Option (State H)
    drain_events zero st = none
    drain_events (suc fuel) st =
        let (ev, s) = eventq_try_pop dflt_evq st.0 in
        elim (ev == null) [
          | true ↦ some (s, st.1)
          | false ↦ drain_events fuel (event_run ev (s, st.1))
        ]

    -- What `run_events` does with an event.
    abbrev pub run_if_some : Ptr → State H → State H
    run_if_some ev st = if ev == null then st else event_run ev st

    -- A poll of `run_events`: its rounds until the queue is empty.
    unfoldable pub run_events : ℕ → Waker → State H → Option (State H)
    run_events zero waker st = none
    run_events (suc fuel) waker st =
        let r = eventq_poll dflt_evq waker st.0 in
        elim r.0 [
          | none ↦ some (r.1, st.1)
          | some ev ↦ run_events fuel waker (run_if_some ev (r.1, st.1))
        ]

module _ {H : Type 0} (poll_timer : ℕ → Waker → H → Bool × H) where
  -- The closure that `run_timers` polls, after the next deadline is known. `poll_timer` is a poll of
  -- `embassy_time::Timer::at(deadline)` with a waker, which arms the timer if it is pending.
  abbrev pub is_ready : ℕ → Waker → H → Option ℕ → Bool × H
  is_ready now waker h none = (false, h)
  is_ready now waker h (some deadline) =
      if leb deadline now then (true, h) else poll_timer deadline waker h

  module _ (run : Ptr → Store → Store) (clock : ℕ → ℕ) (limit : ℕ) where
    -- A poll of `run_timers`: its rounds until no deadline has passed; `clock i` is the reading of the
    -- clock in round `i`, and `limit` the fuel of each `timers_fire_due`.
    unfoldable pub run_timers : ℕ → ℕ → Waker → State H → Option (State H)
    run_timers zero i waker st = none
    run_timers (suc fuel) i waker st =
        let r = timers_poll_next_deadline waker st.0 in
        let p = is_ready (clock i) waker st.1 r.0 in
        elim p.0 [
          | false ↦ some (r.1, p.1)
          | true ↦ elim (timers_fire_due limit run (i + 1) clock r.1) [
            | none ↦ none
            | some t ↦ run_timers fuel (i + 1) waker (t, p.1)
          ]
        ]
