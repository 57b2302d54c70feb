-- ===== src/Npl/Sem.antt =====
-- Semaphores of nimble-rs/src/npl.rs. The count is a `u16`; the addition wraps, as in a release
-- build. The state of a blocked wait is the semaphore and a world `W` that the environment changes.
pub mod Laws
use nimble_rs.Base.{
  ℕ, ◌+◌, ◌-◌, ◌%◌, ◌^◌, Bool, true, false, Option, none, some, ◌==◌, ltb, if◌then◌else◌,
}
use nimble_rs.Npl.Store.{Waker}
use nimble_rs.Npl.Wait.{Env, wait_until, deadline}

-- `enum ble_npl_error`, as far as this file returns it.
pub data NplError : Type 0 where
  ok : NplError
  invalid_param : NplError
  timeout : NplError

pub record Sem : Type 0 where
  pub count : ℕ
  pub waker : Option Waker

-- `ble_npl_sem_init`
pub sem_init : ℕ → Sem
sem_init tokens = record { count = tokens; waker = none }

-- `ble_npl_sem_deinit`: the waker that was taken is dropped, not woken.
pub sem_deinit : Sem → Sem
sem_deinit s = record { count = 0; waker = none }

-- `ble_npl_sem_get_count`
pub sem_get_count : Sem → ℕ
sem_get_count s = s.count

-- `ble_npl_sem_release`, with the waker that it wakes.
pub sem_release : Sem → Sem × Option Waker
sem_release s = (record { count = (s.count + 1) % 2 ^ 16; waker = none }, s.waker)

-- `try_take` in `ble_npl_sem_pend`.
pub try_take : Sem → Bool × Sem
try_take s = if ltb 0 s.count then (true, record s { count = s.count - 1 }) else (false, s)

module _ {W : Type 0} where
  pub take_in : Sem × W → Bool × (Sem × W)
  take_in (s, w) = let (r, s') = try_take s in (r, (s', w))

  pub register_in : Waker → Sem × W → Sem × W
  register_in waker (s, w) = (record s { waker = some waker }, w)

  pub code_of : Option (Bool × (Sem × W)) → Option (NplError × (Sem × W))
  code_of none = none
  code_of (some (true, s)) = some (ok, s)
  code_of (some (false, s)) = some (timeout, s)

  -- `ble_npl_sem_pend`
  pub sem_pend : Env (Sem × W) → ℕ → ℕ → Sem × W → Option (NplError × (Sem × W))
  sem_pend env fuel tmo s =
      let (first, s') = take_in s in
      let waited = wait_until env fuel (deadline tmo (env.now s')) take_in register_in s' in
      if first then some (ok, s') else if tmo == 0 then some (timeout, s') else code_of waited
