-- ===== src/Gatt/Server.antt =====
-- The callbacks and operations of the GATT server, nimble-rs/src/gatt/server.rs, with
-- `gatts_register_cb` and `gatts_access_cb` of nimble-rs/src/lib.rs, and the MTU calls of
-- nimble-rs/src/gatt.rs. The C host's functions and constants are parameters.
use nimble_rs.Base.{ℕ, Option, none, some, List, if◌then◌else◌, ◌==◌}
use nimble_rs.Error.{Result, ok, err, check}
use nimble_rs.Mbuf.{MbufHost, mbuf_from_slice}
use nimble_rs.Uuid.{BleUuid, UuidTypes, RawUuid, from_raw}
use nimble_rs.Gatt.Events.{
  BleGattRegister, service, characteristic, descriptor, other, GattsEvent, register, read, written,
}

-- `BLE_GATT_REGISTER_OP_*`, `BLE_GATT_ACCESS_OP_*` and `BLE_ATT_ERR_UNLIKELY`
pub record ServerCodes : Type 0 where
  pub op_svc : ℕ
  pub op_chr : ℕ
  pub op_dsc : ℕ
  pub op_read_chr : ℕ
  pub op_write_chr : ℕ
  pub err_unlikely : ℕ

-- `ble_gatt_register_ctxt`: its operation, and what the arms of its union have between them.
pub record RegisterCtxt : Type 0 where
  pub op : ℕ
  pub uuid : RawUuid
  pub handle : ℕ
  pub def_handle : ℕ
  pub val_handle : ℕ

-- `ble_gatt_access_ctxt`
pub record AccessCtxt : Type 0 where
  pub op : ℕ
  pub om : ℕ
  pub offset : ℕ

-- A server's hook, over a state that it may change.
abbrev pub Hook : Type 0 → Type 0
Hook S = GattsEvent → S → ℕ × S

abbrev map_uuid : (BleUuid → BleGattRegister) → Option BleUuid → Option BleGattRegister
map_uuid f none = none
map_uuid f (some uuid) = some (f uuid)

module _ (types : UuidTypes) (codes : ServerCodes) where
  -- `BleGattRegister::from`: none where the memory does not hold the UUID.
  unfoldable pub gatt_register : RegisterCtxt → Option BleGattRegister
  gatt_register c =
      if c.op == codes.op_svc
      then map_uuid (λ uuid. service uuid c.handle) (from_raw types c.uuid)
      else if c.op == codes.op_chr
      then map_uuid (λ uuid. characteristic uuid c.def_handle c.val_handle) (from_raw types c.uuid)
      else if c.op == codes.op_dsc
      then map_uuid (λ uuid. descriptor uuid c.handle) (from_raw types c.uuid)
      else some other

  module _ {S : Type 0} where
    abbrev registered : Hook S → Option BleGattRegister → S → Option S
    registered cb none s = none
    registered cb (some r) s = some (cb (register r) s).1

    -- `gatts_register_cb`
    unfoldable pub gatts_register_cb : Option (Hook S) → RegisterCtxt → S → Option S
    gatts_register_cb none c s = some s
    gatts_register_cb (some cb) c s = registered cb (gatt_register c) s

module _ (codes : ServerCodes) {S : Type 0} where
  -- `gatts_access_cb`
  unfoldable pub gatts_access_cb :
      Option (Hook S) → (conn_handle attr_handle : ℕ) → AccessCtxt → S → ℕ × S
  gatts_access_cb none conn_handle attr_handle c s = (codes.err_unlikely, s)
  gatts_access_cb (some cb) conn_handle attr_handle c s =
      if c.op == codes.op_read_chr
      then cb (read conn_handle attr_handle c.offset c.om) s
      else if c.op == codes.op_write_chr
      then cb (written conn_handle attr_handle c.om) s
      else (codes.err_unlikely, s)

-- The C host's calls that send a characteristic's value.
pub record GattsHost (H : Type 0) : Type 0 where
  pub mbufs : MbufHost H
  pub ble_gatts_indicate_custom : (conn_handle val_handle om : ℕ) → H → ℕ × H
  pub ble_gatts_notify_custom : (conn_handle val_handle om : ℕ) → H → ℕ × H
  pub ble_att_set_preferred_mtu : ℕ → H → ℕ × H
  pub ble_att_mtu : ℕ → H → ℕ

module _ {H : Type 0} (host : GattsHost H) (enomem enotconn : ℕ) where
  -- A call with the mbuf, if there is one.
  abbrev send_with : (ℕ → H → ℕ × H) → Result ℕ × H → Result {0} Unit × H
  send_with call (err e, h) = (err e, h)
  send_with call (ok om, h) = let (rc, h') = call om h in (check rc, h')

  -- `Ble::indicate`
  unfoldable pub indicate : (conn_handle val_handle : ℕ) → List ℕ → H → Result {0} Unit × H
  indicate conn_handle val_handle bytes h =
      send_with (host.ble_gatts_indicate_custom conn_handle val_handle)
        (mbuf_from_slice host.mbufs enomem bytes h)

  -- `Ble::notify`
  unfoldable pub notify : (conn_handle val_handle : ℕ) → List ℕ → H → Result {0} Unit × H
  notify conn_handle val_handle bytes h =
      send_with (host.ble_gatts_notify_custom conn_handle val_handle)
        (mbuf_from_slice host.mbufs enomem bytes h)

  -- `set_preferred_mtu`
  unfoldable pub set_preferred_mtu : ℕ → H → Result {0} Unit × H
  set_preferred_mtu mtu h = let (rc, h') = host.ble_att_set_preferred_mtu mtu h in (check rc, h')

  -- `att_mtu`
  unfoldable pub att_mtu : ℕ → H → Result ℕ
  att_mtu conn_handle h =
      if host.ble_att_mtu conn_handle h == 0
      then err enotconn
      else ok (host.ble_att_mtu conn_handle h)
