-- ===== src/Driver/Run.antt =====
-- `Ble::run` of nimble-rs/src/lib.rs never sleeps over a timer that is due.
use nimble_rs.Base.{
  ℕ, suc, ◌<◌, ◌≤◌, ◌≡◌, ◌≢◌, refl, ap, ◌∙◌, Bool, true, false, some, List, [], ◌++◌, map, length,
  has, arith,
}
use nimble_rs.Npl.Store.{Ptr, null, Waker, Store, event_of}
use nimble_rs.Npl.Eventq.Defs.{IsQueue}
use nimble_rs.Npl.Timers.Defs.{callout_deadline, IsTimers, IsTimers-frame}
use nimble_rs.Npl.Timers.Fire.{due, later, woken_by, waker_after}
use nimble_rs.Npl.Eventq.Poll.{registered, registered-IsQueue}
use nimble_rs.Port.{State}
use nimble_rs.Port.Events.{run_events_idle}
use nimble_rs.Port.Timers.{first_polled, run_timers-Fired}
use nimble_rs.Driver.Calls.{run_poll, timed, pumped}

module _ {H : Type 0} (call : (func ev : Ptr) → State H → State H) (evq : Ptr)
    (run : Ptr → Store → Store) (clock : ℕ → ℕ) (poll_timer : ℕ → Waker → H → Bool × H)
    (pump_manual : Waker → State H → State H) (now : ℕ) (steady : (j : ℕ) → clock j ≡ now)
    (no_early : (d : ℕ) (w : Waker) (h : H) → (poll_timer d w h).0 ≡ true → d ≤ now) where
  -- A poll of `Ble::run` by a task that found nothing to do before, with the clock at `now`. It puts the
  -- events of exactly the callouts that are due on the default queue, the earliest deadline first,
  -- leaves the others active, and then polls the pump. If any was due, the task's waker is woken,
  -- once, so that the task runs again; if none was, no waker is woken, and the task's waker stays
  -- registered with the queue. It is registered with the timers in any case, and if a callout is left,
  -- the timer of `embassy_time` for the first deadline is polled with it before the pump is. This is for callouts
  -- that all fire to the default queue and whose events are not queued, with timers of
  -- `embassy_time` that are not ready early.
  pub run_poll-wakes :
      (fuel limit : ℕ) (waker : Waker) (s : Store) (h : H) (xs : List Ptr)
      → IsQueue s evq []
      → IsTimers s xs
      → evq ≢ null
      → ((p : Ptr) → has p xs ≡ true → (s.callout p).evq ≡ evq)
      → ((p : Ptr) → has p xs ≡ true → (s.event (event_of p)).queued ≡ false)
      → length xs < limit
      → (t : Store) × (run_poll call evq run clock poll_timer pump_manual
            (suc fuel)
            2
            limit
            waker
            (s, h)
          ≡ some (
              pump_manual waker (
                t,
                first_polled poll_timer
                    (callout_deadline s)
                    waker
                    (later (callout_deadline s) now xs)
                    h,
              )))
        × IsQueue t evq (map event_of (due (callout_deadline s) now xs))
        × IsTimers t (later (callout_deadline s) now xs)
        × (t.woken ≡ s.woken ++ woken_by (some waker) (due (callout_deadline s) now xs))
        × ((t.eventq evq).waker ≡ waker_after (some waker) (due (callout_deadline s) now xs))
        × (t.timers.waker ≡ some waker)
  unfolding run_poll
  run_poll-wakes fuel limit waker s h xs iq it some_q to free enough =
      let idle = registered s evq waker in
      let (t, ran, fired, w) =
        run_timers-Fired poll_timer run clock limit now steady no_early 0 waker idle h evq xs []
          (IsTimers-frame s idle xs refl refl it) (registered-IsQueue s evq waker iq) some_q to free
          enough in
      let was : (idle.eventq evq).waker ≡ some waker = ground arith in
      let fires = due (callout_deadline s) now xs in
      (
        t,
        ap (timed call evq run clock poll_timer pump_manual 2 limit waker)
              (run_events_idle call evq fuel waker s h iq)
            ∙ ap (pumped call evq run clock poll_timer pump_manual waker) ran,
        fired.queue,
        fired.timers,
        fired.woken ∙ ap (λ o. s.woken ++ woken_by o fires) was,
        fired.waker ∙ ap (λ o. waker_after o fires) was,
        w,
      )
