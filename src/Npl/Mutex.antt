-- ===== src/Npl/Mutex.antt =====
-- Mutexes of nimble-rs/src/npl.rs: recursive and owner-tracked. A context is a number, never 0
-- (`Parker::ctx_id`), and 0 stands for no owner. The count is a `u32`; the addition wraps, as in a
-- release build.
pub mod Laws
use nimble_rs.Base.{
  ℕ, ◌+◌, ◌-◌, ◌%◌, ◌^◌, Bool, true, false, Option, none, some, ◌==◌, ◌||◌, not, if◌then◌else◌,
  List, [], ◌∷◌,
}
use nimble_rs.Npl.Wait.{Env, wait_until, deadline}
use nimble_rs.Npl.Sem.{NplError, ok, invalid_param, timeout}

pub record Mutex : Type 0 where
  pub owner : ℕ
  pub count : ℕ

-- `ble_npl_mutex_init` and `ble_npl_mutex_deinit`
unfoldable pub mutex_init : Mutex
mutex_init = record { owner = 0; count = 0 }

-- `try_lock` in `ble_npl_mutex_pend`, for the context `me`.
unfoldable pub try_lock : ℕ → Mutex → Bool × Mutex
try_lock me m =
    if m.owner == 0
    then (true, record { owner = me; count = 1 })
    else if m.owner == me
    then (true, record m { count = (m.count + 1) % 2 ^ 32 })
    else (false, m)

-- `ble_npl_mutex_release`
unfoldable pub mutex_release : ℕ → Mutex → NplError × Mutex
mutex_release me m =
    let left = m.count - 1 in
    if not (m.owner == me) || m.count == 0
    then (invalid_param, m)
    else (ok, record { owner = if left == 0 then 0 else m.owner; count = left })

module _ {W : Type 0} where
  pub lock_in : ℕ → Mutex × W → Bool × (Mutex × W)
  lock_in me (m, w) = let (r, m') = try_lock me m in (r, (m', w))

  pub pend_code : Option (Bool × (Mutex × W)) → Option (NplError × (Mutex × W))
  pend_code none = none
  pend_code (some (true, s)) = some (ok, s)
  pend_code (some (false, s)) = some (timeout, s)

  -- `ble_npl_mutex_pend`: contention has no waker of its own, so nothing is registered.
  pub mutex_pend : Env (Mutex × W) → ℕ → ℕ → ℕ → Mutex × W → Option (NplError × (Mutex × W))
  mutex_pend env fuel me tmo s =
      let (first, s') = lock_in me s in
      let waited = wait_until env fuel (deadline tmo (env.now s')) (lock_in me) (λ _ t. t) s' in
      if first then some (ok, s') else pend_code waited
