-- ===== src/Gap/Ops.antt =====
-- The GAP operations of nimble-rs/src/gap.rs: advertising, discovery, pairing and its configuration. The
-- C host's functions and constants are parameters; an `i32` is given by the number of its 32 bits.
use nimble_rs.Base.{ℕ, ◌%◌, Bool, Option, none, some, List, length, if◌then◌else◌, ◌==◌}
use nimble_rs.Error.{Result, ok, err, check}
use nimble_rs.Uuid.{BleAddr}
use nimble_rs.Gap.Params.{
  bit, BleAdvParams, RawAdvParams, raw_adv_params, BleAdvFields, RawAdvFields, raw_adv_fields,
  BleDiscParams, RawDiscParams, raw_disc_params,
}

-- `PasskeyReply`
pub data PasskeyReply : Type 0 where
  passkey : ℕ → PasskeyReply
  num_cmp : Bool → PasskeyReply
  oob : List ℕ → PasskeyReply

-- `ble_sm_io`: its action, and the arm of its union that was written.
pub data SmIo : Type 0 where
  io_passkey : (action passkey : ℕ) → SmIo
  io_numcmp_accept : (action numcmp_accept : ℕ) → SmIo
  io_oob : (action : ℕ) → List ℕ → SmIo

-- `ble_gap_conn_desc`, as far as `BleConnDesc` shows it.
pub record BleConnDesc : Type 0 where
  pub peer_id_addr : BleAddr

-- `BleConnDesc::peer_addr`
abbrev pub peer_addr : BleConnDesc → BleAddr
peer_addr desc = desc.peer_id_addr

-- The C host, over its state. Every call with a callback is given `gap_event_cb`.
pub record GapHost (H : Type 0) : Type 0 where
  pub ble_sm_inject_io : ℕ → SmIo → H → ℕ × H
  pub ble_gap_conn_find : ℕ → H → ℕ × BleConnDesc
  pub ble_gap_adv_set_data : List ℕ → ℕ → H → ℕ × H
  pub ble_gap_adv_set_fields : RawAdvFields → H → ℕ × H
  pub ble_gap_adv_start : (own_addr_type duration : ℕ) → RawAdvParams → H → ℕ × H
  pub ble_gap_adv_stop : H → ℕ × H
  pub ble_gap_disc : (own_addr_type duration : ℕ) → RawDiscParams → H → ℕ × H
  pub ble_gap_disc_cancel : H → ℕ × H

-- `BLE_SM_IOACT_INPUT`, `_NUMCMP` and `_OOB`
pub record IoActions : Type 0 where
  pub input : ℕ
  pub numcmp : ℕ
  pub oob : ℕ

-- `i32::MAX`, which stands for the C host's `BLE_HS_FOREVER`.
abbrev pub forever : ℕ
forever = 2147483647

-- `x as u8`
abbrev as_u8 : ℕ → ℕ
as_u8 n = n % 256

-- `x as i32` of a `usize`, by its 32 bits.
abbrev pub as_i32 : ℕ → ℕ
as_i32 n = n % 4294967296

-- What is handed to the C host as an answer.
unfoldable pub sm_io : IoActions → PasskeyReply → SmIo
sm_io acts (passkey p) = io_passkey (as_u8 acts.input) p
sm_io acts (num_cmp accept) = io_numcmp_accept (as_u8 acts.numcmp) (bit accept)
sm_io acts (oob bytes) = io_oob (as_u8 acts.oob) bytes

-- `duration_ms.map(|ms| ms as i32).unwrap_or(i32::MAX)`
unfoldable pub disc_duration : Option ℕ → ℕ
disc_duration none = forever
disc_duration (some ms) = as_i32 ms

module _ {H : Type 0} (host : GapHost H) where
  abbrev checked : ℕ × H → Result {0} Unit × H
  checked (rc, h) = (check rc, h)

  -- `inject_io`
  unfoldable pub inject_io : IoActions → ℕ → PasskeyReply → H → Result {0} Unit × H
  inject_io acts conn_handle reply h =
      checked (host.ble_sm_inject_io conn_handle (sm_io acts reply) h)

  abbrev found : ℕ × BleConnDesc → Result BleConnDesc
  found (rc, desc) = if rc == 0 then ok desc else err rc

  -- `conn_find`
  unfoldable pub conn_find : ℕ → H → Result BleConnDesc
  conn_find conn_handle h = found (host.ble_gap_conn_find conn_handle h)

  -- `Ble::adv_set_data`
  unfoldable pub adv_set_data : List ℕ → H → Result {0} Unit × H
  adv_set_data bytes h = checked (host.ble_gap_adv_set_data bytes (as_i32 (length bytes)) h)

  -- `Ble::adv_set_fields`
  unfoldable pub adv_set_fields : BleAdvFields → H → Result {0} Unit × H
  adv_set_fields fields h = checked (host.ble_gap_adv_set_fields (raw_adv_fields fields) h)

  abbrev started : ℕ → ℕ × H → Result {0} Unit × H
  started ealready (rc, h) = if rc == ealready then (ok tt, h) else (check rc, h)

  -- `Ble::adv_start`
  unfoldable pub adv_start : ℕ → ℕ → BleAdvParams → H → Result {0} Unit × H
  adv_start ealready own_addr_type params h =
      started ealready (host.ble_gap_adv_start own_addr_type forever (raw_adv_params params) h)

  -- `Ble::adv_stop`
  unfoldable pub adv_stop : H → Result {0} Unit × H
  adv_stop h = checked (host.ble_gap_adv_stop h)

  -- `Ble::disc`
  unfoldable pub disc : ℕ → Option ℕ → BleDiscParams → H → Result {0} Unit × H
  disc own_addr_type duration_ms params h =
      checked
        (host.ble_gap_disc own_addr_type (disc_duration duration_ms) (raw_disc_params params) h)

  -- `Ble::disc_cancel`
  unfoldable pub disc_cancel : H → Result {0} Unit × H
  disc_cancel h = checked (host.ble_gap_disc_cancel h)

-- `BleSecurity`
pub record BleSecurity : Type 0 where
  pub io_cap : ℕ
  pub bonding : Bool
  pub mitm : Bool
  pub sc : Bool

-- What `ble_hs_cfg` holds of pairing.
pub record SmCfg : Type 0 where
  pub sm_io_cap : ℕ
  pub sm_bonding : ℕ
  pub sm_mitm : ℕ
  pub sm_sc : ℕ
  pub sm_our_key_dist : ℕ
  pub sm_their_key_dist : ℕ

-- `Ble::set_security`
unfoldable pub set_security : BleSecurity → SmCfg → SmCfg
set_security s cfg = record {
  sm_io_cap = s.io_cap;
  sm_bonding = bit s.bonding;
  sm_mitm = bit s.mitm;
  sm_sc = bit s.sc;
  sm_our_key_dist = if s.bonding then 3 else cfg.sm_our_key_dist;
  sm_their_key_dist = if s.bonding then 3 else cfg.sm_their_key_dist;
}
