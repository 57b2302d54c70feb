-- ===== src/Npl/Blocking.antt =====
-- The other waits of nimble-rs/src/npl.rs: `ble_npl_eventq_get` and `ble_npl_time_delay`.
pub mod Laws
use nimble_rs.Base.{ℕ, Bool, true, false, Option, none, some, not, ◌==◌, ◌||◌, if◌then◌else◌}
use nimble_rs.Npl.Store.{Ptr, null, Waker, Store, set_eventq}
use nimble_rs.Npl.Eventq.{eventq_try_pop}
use nimble_rs.Npl.Wait.{Env, wait_until, deadline}

abbrev pub waited : {S : Type 0} → Option (Bool × S) → Option S
waited none = none
waited (some (b, s)) = some s

module _ {W : Type 0} where
  -- The closures of `ble_npl_eventq_get`; the event that they set stands before the store.
  pub pop_in : Ptr → Ptr × (Store × W) → Bool × (Ptr × (Store × W))
  pop_in evq (ev, (s, w)) =
      let (popped, t) = eventq_try_pop evq s in (not (popped == null), (popped, (t, w)))

  pub register_waker : Ptr → Waker → Ptr × (Store × W) → Ptr × (Store × W)
  register_waker evq waker (ev, (s, w)) =
      (ev, (set_eventq s evq (record (s.eventq evq) { waker = some waker }), w))

  -- `ble_npl_eventq_get`: the event, or null.
  pub eventq_get : Env (Ptr × (Store × W)) → ℕ → Ptr → ℕ → Store × W → Option (Ptr × (Store × W))
  eventq_get env fuel evq tmo s =
      let (got, s') = pop_in evq (null, s) in
      let rest =
        waited
          (wait_until env fuel (deadline tmo (env.now s')) (pop_in evq) (register_waker evq) s') in
      if got || tmo == 0 then some s' else rest

-- `ble_npl_time_delay`
unfoldable pub time_delay : {S : Type 0} → Env S → ℕ → ℕ → S → Option S
time_delay env fuel ticks s =
    waited (wait_until env fuel (deadline ticks (env.now s)) (λ t. (false, t)) (λ _ t. t) s)
