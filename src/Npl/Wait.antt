-- ===== src/Npl/Wait.antt =====
-- `wait_until` of nimble-rs/src/npl.rs, the pump-while-pending loop of every blocking operation.
-- What it calls and does not implement is an `Env`: the clock, the poll of the HCI bridge (which
-- lets other parts of the program change the state) and the parker. A round is one unit of fuel.
pub mod Laws
use nimble_rs.Base.{
  ℕ, zero, suc, ◌+◌, ◌-◌, ◌^◌, ◌≤◌, ◌≡◌, Bool, true, false, Option, none, some, ◌==◌, leb,
  if◌then◌else◌,
}
use nimble_rs.Npl.Store.{Waker}

-- `FOREVER`
abbrev pub forever : ℕ
forever = 2 ^ 32 - 1

-- `deadline`, with `now` the clock.
unfoldable pub deadline : ℕ → ℕ → Option ℕ
deadline ticks now = if ticks == forever then none else some (now + ticks)

-- `deadline.is_some_and(|deadline| Instant::now() >= deadline)`
unfoldable pub expired : Option ℕ → ℕ → Bool
expired none now = false
expired (some d) now = leb d now

-- The clock, `parker::current_waker`, `hci::pump_manual` and `parker::park` over a state `S`.
pub record Env (S : Type 0) : Type 0 where
  pub now : S → ℕ
  pub current_waker : Waker
  pub pump_manual : Waker → S → S
  pub park : Option ℕ → S → S

module _ {S : Type 0} (env : Env S) where
  -- `wait_until`; `none` says that the fuel ran out, and so that the wait goes on.
  unfoldable pub wait_until :
      ℕ → Option ℕ → (S → Bool × S) → (Waker → S → S) → S → Option (Bool × S)
  wait_until zero deadline ready register s = none
  wait_until (suc fuel) deadline ready register s =
      let (first, s1) = ready s in
      let s2 = register env.current_waker s1 in
      let (second, s3) = ready s2 in
      let (third, s4) = ready (env.pump_manual env.current_waker s3) in
      let again = wait_until fuel deadline ready register (env.park deadline s4) in
      if first
      then some (true, s1)
      else if expired deadline (env.now s1)
      then some (false, s1)
      else if second
      then some (true, s3)
      else if third
      then some (true, s4)
      else again
