-- ===== src/Driver/Calls.antt =====
-- The calls of a live driver in nimble-rs/src/lib.rs: subscribing to events, the host's callbacks, the
-- device's address, and a poll of `Ble::run`.
use nimble_rs.Base.{ℕ, Bool, not, Option, none, some, List, if◌then◌else◌, ◌==◌}
use nimble_rs.Error.{Result, ok, err}
use nimble_rs.Npl.Store.{Ptr, Waker, Store}
use nimble_rs.Driver.{Slots}
use nimble_rs.Port.{State, run_events, run_timers}

-- `HostEvent`
pub data HostEvent : Type 0 where
  sync : HostEvent
  reset : ℕ → HostEvent

module _ {S : Type 0} where
  abbrev deliver : Option (HostEvent → S → S) → HostEvent → S → S
  deliver none e s = s
  deliver (some cb) e s = cb e s

  -- `on_sync`
  unfoldable pub on_sync : Option (HostEvent → S → S) → S → S
  on_sync cb s = deliver cb sync s

  -- `on_reset`
  unfoldable pub on_reset : Option (HostEvent → S → S) → ℕ → S → S
  on_reset cb reason s = deliver cb (reset reason) s

-- A callback by its address, set or reset in its slot.
abbrev set_gap : Option ℕ → Slots → Slots
set_gap cb s = record s { gap_callback = cb }

-- `Ble::host_subscribe`
unfoldable pub host_subscribe : ℕ → Slots → Slots
host_subscribe cb s = record s { host_callback = some cb }

-- `Ble::gap_subscribe`
unfoldable pub gap_subscribe : ℕ → Slots → Slots
gap_subscribe cb s = set_gap (some cb) s

-- `Ble::gap_unsubscribe`
unfoldable pub gap_unsubscribe : Slots → Slots
gap_unsubscribe s = set_gap none s

-- `Ble::gatts_subscribe`
unfoldable pub gatts_subscribe : ℕ → Slots → Slots
gatts_subscribe cb s = record s { gatts_callback = some cb }

-- `Ble::gatts_unsubscribe`
unfoldable pub gatts_unsubscribe : Slots → Slots
gatts_unsubscribe s = record s { gatts_callback = none }

-- `Ble::gattc_subscribe`
unfoldable pub gattc_subscribe : ℕ → Slots → Slots
gattc_subscribe cb s = record s { gattc_callback = some cb }

-- `Ble::gattc_unsubscribe`
unfoldable pub gattc_unsubscribe : Slots → Slots
gattc_unsubscribe s = record s { gattc_callback = none }

-- The calls of the C host that find the device's address: each with its code and what it stores.
pub record IdHost (H : Type 0) : Type 0 where
  pub ble_hs_util_ensure_addr : ℕ → H → ℕ × H
  pub ble_hs_id_infer_auto : ℕ → H → ℕ × ℕ
  pub ble_hs_id_copy_addr : ℕ → H → ℕ × List ℕ
  pub ble_hs_synced : H → ℕ

module _ {H : Type 0} (host : IdHost H) where
  -- The address of a type.
  abbrev copied : ℕ → ℕ × List ℕ → Result (List ℕ × ℕ)
  copied addr_type (rc, addr) = if rc == 0 then ok (addr, addr_type) else err rc

  abbrev inferred : H → ℕ × ℕ → Result (List ℕ × ℕ)
  inferred h (rc, addr_type) =
      if rc == 0 then copied addr_type (host.ble_hs_id_copy_addr addr_type h) else err rc

  abbrev ensured : ℕ × H → Result (List ℕ × ℕ) × H
  ensured (rc, h) = (if rc == 0 then inferred h (host.ble_hs_id_infer_auto 0 h) else err rc, h)

  -- `Ble::address`
  unfoldable pub address : H → Result (List ℕ × ℕ) × H
  address h = ensured (host.ble_hs_util_ensure_addr 0 h)

  -- `Ble::synced`
  unfoldable pub synced : H → Bool
  synced h = not (host.ble_hs_synced h == 0)

-- `Ble::l2cap_subscribe`
unfoldable pub l2cap_subscribe : ℕ → Slots → Slots
l2cap_subscribe cb s = record s { l2cap_callback = some cb }

-- `Ble::l2cap_unsubscribe`
unfoldable pub l2cap_unsubscribe : Slots → Slots
l2cap_unsubscribe s = record s { l2cap_callback = none }

module _ {H : Type 0} (call : (func ev : Ptr) → State H → State H) (dflt_evq : Ptr)
    (run : Ptr → Store → Store) (clock : ℕ → ℕ) (poll_timer : ℕ → Waker → H → Bool × H)
    (pump_manual : Waker → State H → State H) where
  abbrev pub pumped : Waker → Option (State H) → Option (State H)
  pumped waker none = none
  pumped waker (some st) = some (pump_manual waker st)

  abbrev pub timed : (fuel limit : ℕ) → Waker → Option (State H) → Option (State H)
  timed fuel limit waker none = none
  timed fuel limit waker (some st) =
      pumped waker (run_timers poll_timer run clock limit fuel 0 waker st)

  -- A poll of `Ble::run`: the default queue, the timers and the pump, in this order. The fuels are those
  -- of the two loops and of each `timers_fire_due`.
  unfoldable pub run_poll : (events timers limit : ℕ) → Waker → State H → Option (State H)
  run_poll events timers limit waker st =
      timed timers limit waker (run_events call dflt_evq events waker st)
