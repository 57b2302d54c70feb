-- ===== src/Hci/Pump.antt =====
-- The global registration of the pump in nimble-rs/src/hci.rs: `register_pump`, the drop of its
-- guard, and `pump_manual`.
pub mod Laws
use nimble_rs.Base.{ℕ, Bool, true, false, Option, none, some, if◌then◌else◌}
use nimble_rs.Npl.Store.{Waker}

-- `PumpSlot`; the registered future by its address.
pub record PumpSlot : Type 0 where
  pub fut : Option ℕ
  pub busy : Bool

-- `register_pump`, in a release build, where the debug assertion is not there.
pub register_pump : ℕ → PumpSlot → PumpSlot
register_pump fut slot = record { fut = some fut; busy = false }

-- `Drop for PumpGuard`
pub drop_guard : PumpSlot → PumpSlot
drop_guard slot = record { fut = none; busy = false }

abbrev set_busy : Bool → PumpSlot → PumpSlot
set_busy b slot = record { fut = slot.fut; busy = b }

-- What the first critical section of `pump_manual` takes.
pub claim : PumpSlot → Option ℕ × PumpSlot
claim slot =
    if slot.busy
    then (none, slot)
    else elim slot.fut [ none ↦ (none, slot) | some fut ↦ (some fut, set_busy true slot) ]

module _ {W : Type 0} (poll : ℕ → Waker → PumpSlot × W → PumpSlot × W) where
  abbrev release : PumpSlot × W → PumpSlot × W
  release (slot, w) = (set_busy false slot, w)

  abbrev polled : Waker → W → Option ℕ × PumpSlot → Bool × (PumpSlot × W)
  polled waker w (none, slot) = (false, (slot, w))
  polled waker w (some fut, slot) = (true, release (poll fut waker (slot, w)))

  -- `pump_manual`; the poll of the future may itself call it.
  pub pump_manual : Waker → PumpSlot × W → Bool × (PumpSlot × W)
  pump_manual waker (slot, w) = polled waker w (claim slot)
