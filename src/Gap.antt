-- ===== src/Gap.antt =====
-- The GAP events and operations of nimble-rs/src/gap.rs, and the callback that all connection events
-- come in by, `gap_event_cb` of nimble-rs/src/lib.rs, with the server's part of them from
-- nimble-rs/src/gatt/server.rs and the client's from nimble-rs/src/gatt/client.rs. The values of the
-- C constants are parameters; a signed C number is given by the number of its bits.
pub mod Params
pub mod Ops
pub mod Security
pub mod Name
pub mod Roles
use nimble_rs.Base.{
  ℕ, zero, suc, ◌-◌, ◌^◌, Bool, true, false, not, Option, none, some, List, [], ◌∷◌, ◌++◌, length,
  if◌then◌else◌, ltb, leb, ◌==◌, ◌||◌, ◌&&◌, has,
}
use nimble_rs.Gatt.Events.{
  SubscribeReason, write, term, restore, other_reason, GattsEvent, subscription_changed,
  notify_complete, GattcEvent, notify,
}
use nimble_rs.Error.{BleError, Result, ok, err, check}

-- `BLE_GAP_EVENT_*`
pub record GapTypes : Type 0 where
  pub connect : ℕ
  pub disconnect : ℕ
  pub mtu : ℕ
  pub disc : ℕ
  pub disc_complete : ℕ
  pub passkey_action : ℕ
  pub enc_change : ℕ
  pub subscribe : ℕ
  pub notify_tx : ℕ
  pub notify_rx : ℕ

-- `BLE_SM_IOACT_*` and `BLE_GAP_SUBSCRIBE_REASON_*`
pub record GapCodes : Type 0 where
  pub disp : ℕ
  pub input : ℕ
  pub numcmp : ℕ
  pub oob : ℕ
  pub reason_write : ℕ
  pub reason_term : ℕ
  pub reason_restore : ℕ

-- `ble_gap_event`: its type, and what the arms of its union have between them.
pub record RawGapEvent : Type 0 where
  pub type_ : ℕ
  pub conn_handle : ℕ
  pub attr_handle : ℕ
  pub status : ℕ
  pub reason : ℕ
  pub value : ℕ
  pub event_type : ℕ
  pub addr : ℕ × List ℕ
  pub rssi : ℕ
  pub bytes : Option (List ℕ)
  pub action : ℕ
  pub numcmp : ℕ
  pub prev_notify : ℕ
  pub cur_notify : ℕ
  pub prev_indicate : ℕ
  pub cur_indicate : ℕ
  pub indication : ℕ
  pub om : ℕ

-- `PasskeyAction`
pub data PasskeyAction : Type 0 where
  display : ℕ → PasskeyAction
  input : PasskeyAction
  num_cmp : ℕ → PasskeyAction
  oob : PasskeyAction
  other_action : ℕ → PasskeyAction

-- `GapEvent`
pub data GapEvent : Type 0 where
  connect : ℕ → Result {0} Unit → GapEvent
  disconnect : ℕ → BleError → GapEvent
  mtu : (conn_handle value : ℕ) → GapEvent
  discovery : ℕ → ℕ × List ℕ → ℕ → List ℕ → GapEvent
  discovery_complete : ℕ → GapEvent
  passkey_action : ℕ → PasskeyAction → GapEvent
  enc_change : ℕ → Result {0} Unit → GapEvent
  other : GapEvent

-- The subscribed hooks, over a state that they may change.
pub record Hooks (S : Type 0) : Type 0 where
  pub gap : Option (GapEvent → S → ℕ × S)
  pub gatts : Option (GattsEvent → S → ℕ × S)
  pub gattc : Option (GattcEvent → S → S)

module _ (types : GapTypes) (codes : GapCodes) where
  abbrev pub action_of : RawGapEvent → PasskeyAction
  action_of e =
      if e.action == codes.disp
      then display e.numcmp
      else if e.action == codes.input
      then input
      else if e.action == codes.numcmp
      then num_cmp e.numcmp
      else if e.action == codes.oob
      then oob
      else other_action e.action

  -- `GapEvent::from`, where `sm` says whether a Security Manager feature is on.
  pub gap_event : Bool → RawGapEvent → GapEvent
  gap_event sm e =
      if e.type_ == types.connect
      then connect e.conn_handle (check e.status)
      else if e.type_ == types.disconnect
      then disconnect e.conn_handle e.reason
      else if e.type_ == types.mtu
      then mtu e.conn_handle e.value
      else if e.type_ == types.disc
      then discovery e.event_type e.addr e.rssi (elim e.bytes [ none ↦ [] | some bs ↦ bs ])
      else if e.type_ == types.disc_complete
      then discovery_complete e.reason
      else if sm && e.type_ == types.passkey_action
      then passkey_action e.conn_handle (action_of e)
      else if e.type_ == types.enc_change
      then enc_change e.conn_handle (check e.status)
      else other

  -- `SubscribeReason::from_raw`
  pub subscribe_reason : ℕ → SubscribeReason
  subscribe_reason reason =
      if reason == codes.reason_write
      then write
      else if reason == codes.reason_term
      then term
      else if reason == codes.reason_restore
      then restore
      else other_reason reason

  -- `GattsEvent::from_gap`
  pub from_gap : RawGapEvent → Option GattsEvent
  from_gap e =
      if e.type_ == types.subscribe
      then some (
          subscription_changed e.conn_handle e.attr_handle (subscribe_reason e.reason)
            (not (e.prev_notify == 0)) (not (e.cur_notify == 0)) (not (e.prev_indicate == 0))
            (not (e.cur_indicate == 0)))
      else if e.type_ == types.notify_tx
      then some (notify_complete e.conn_handle e.attr_handle (not (e.indication == 0)) e.status)
      else none

  -- `GattcEvent::from_notify_rx`
  abbrev pub from_notify_rx : RawGapEvent → GattcEvent
  from_notify_rx e = notify e.conn_handle e.attr_handle (not (e.indication == 0)) e.om

  module _ {S : Type 0} where
    abbrev to_gatts : Option (GattsEvent → S → ℕ × S) → Option GattsEvent → S → S
    to_gatts none e s = s
    to_gatts (some cb) none s = s
    to_gatts (some cb) (some e) s = (cb e s).1

    abbrev to_gattc : Option (GattcEvent → S → S) → GattcEvent → S → S
    to_gattc none e s = s
    to_gattc (some cb) e s = cb e s

    abbrev to_gap : Option (GapEvent → S → ℕ × S) → GapEvent → S → ℕ × S
    to_gap none e s = (0, s)
    to_gap (some cb) e s = cb e s

    -- `gap_event_cb`, with the features `peripheral`, `central` and `sm`.
    pub gap_event_cb : Bool → Bool → Bool → Hooks S → RawGapEvent → S → ℕ × S
    gap_event_cb peripheral central sm hooks e s =
        if peripheral && (e.type_ == types.subscribe || e.type_ == types.notify_tx)
        then (0, to_gatts hooks.gatts (from_gap e) s)
        else if central && e.type_ == types.notify_rx
        then (0, to_gattc hooks.gattc (from_notify_rx e) s)
        else to_gap hooks.gap (gap_event sm e) s

-- The stack buffer of `set_device_name`.
abbrev pub name_buf : ℕ
name_buf = 64

abbrev pub zeros : ℕ → List ℕ
zeros zero = []
zeros (suc n) = 0 ∷ zeros n

module _ {H : Type 0} (ble_svc_gap_device_name_set : List ℕ → H → ℕ × H) (einval : ℕ) where
  -- `set_device_name`
  pub set_device_name : List ℕ → H → Result {0} Unit × H
  set_device_name name host =
      if leb name_buf (length name) || has 0 name
      then (err einval, host)
      else let (rc, host') =
          ble_svc_gap_device_name_set (name ++ zeros (name_buf - length name)) host in
        (check rc, host')
