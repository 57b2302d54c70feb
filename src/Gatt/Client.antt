-- ===== src/Gatt/Client.antt =====
-- The GATT client, nimble-rs/src/gatt/client.rs: what its operations ask of the C host, and the callbacks
-- that the C host answers by. A null pointer is none. The C host's functions are parameters.
use nimble_rs.Base.{ℕ, Option, none, some, List}
use nimble_rs.Error.{Result, check}
use nimble_rs.Mbuf.{passed}
use nimble_rs.Uuid.{BleUuid, BleAddr, UuidTypes, RawUuid, from_raw}
use nimble_rs.Gatt.Events.{
  GattcService, GattcChr, GattcEvent, service_found, characteristic_found, read_complete,
  write_complete,
}

-- `ble_gatt_svc`
pub record RawService : Type 0 where
  pub start_handle : ℕ
  pub end_handle : ℕ
  pub uuid : RawUuid

-- `ble_gatt_chr`
pub record RawChr : Type 0 where
  pub def_handle : ℕ
  pub val_handle : ℕ
  pub properties : ℕ
  pub uuid : RawUuid

-- `ble_gatt_attr`
pub record RawAttr : Type 0 where
  pub handle : ℕ
  pub om : ℕ

-- The callback that an operation hands to the C host.
pub data Callback : Type 0 where
  on_gap_event on_disc_svc on_disc_chr on_read on_write : Callback

-- `i32::MAX`
abbrev pub ble_hs_forever : ℕ
ble_hs_forever = 2147483647

-- The C host, over its state.
pub record GattcHost (H : Type 0) : Type 0 where
  pub ble_gap_connect : ℕ → BleAddr → (duration : ℕ) → Callback → H → ℕ × H
  pub ble_gap_terminate : (conn_handle reason : ℕ) → H → ℕ × H
  pub ble_gattc_disc_all_svcs : ℕ → Callback → H → ℕ × H
  pub ble_gattc_disc_all_chrs : (conn_handle start_handle end_handle : ℕ) → Callback → H → ℕ × H
  pub ble_gattc_read : (conn_handle attr_handle : ℕ) → Callback → H → ℕ × H
  pub ble_gattc_write_flat : (conn_handle attr_handle : ℕ) → List ℕ → Callback → H → ℕ × H
  pub ble_gattc_write_no_rsp_flat : (conn_handle attr_handle : ℕ) → List ℕ → H → ℕ × H

-- `error_status`, of a status if there is one.
unfoldable pub error_status : Option ℕ → ℕ
error_status none = 0
error_status (some status) = status

abbrev pub handle_of : Option RawAttr → ℕ
handle_of none = 0
handle_of (some attr) = attr.handle

abbrev pub om_of : Option RawAttr → ℕ
om_of none = 0
om_of (some attr) = attr.om

abbrev pub checked {ℓ} : {H : Type ℓ} → ℕ × H → Result {0} Unit × H
checked (rc, h) = (check rc, h)

-- A client's hook, over a state that it may change.
abbrev pub Hook : Type 0 → Type 0
Hook S = GattcEvent → S → S

module _ (types : UuidTypes) where
  abbrev with_svc : RawService → Option BleUuid → Option GattcService
  with_svc svc none = none
  with_svc svc (some uuid) =
      some (record { start_handle = svc.start_handle; end_handle = svc.end_handle; uuid = uuid })

  -- `GattcService::from`: none where the memory does not hold the UUID.
  unfoldable pub gattc_service : RawService → Option GattcService
  gattc_service svc = with_svc svc (from_raw types svc.uuid)

  abbrev with_chr : RawChr → Option BleUuid → Option GattcChr
  with_chr chr none = none
  with_chr chr (some uuid) = some (record {
    def_handle = chr.def_handle;
    val_handle = chr.val_handle;
    properties = chr.properties;
    uuid = uuid;
  })

  -- `GattcChr::from`, likewise.
  unfoldable pub gattc_chr : RawChr → Option GattcChr
  gattc_chr chr = with_chr chr (from_raw types chr.uuid)

  -- `(!ptr.is_null()).then(|| T::from(&*ptr))`
  abbrev pub then_from {ℓ κ} :
      {R : Type ℓ} {A : Type κ} → (R → Option A) → Option R → Option (Option A)
  then_from from none = some none
  then_from from (some raw) = elim (from raw) [ none ↦ none | some a ↦ some (some a) ]

  module _ {S : Type 0} where
    abbrev found {ℓ} :
        {A : Type ℓ} → Hook S → (Option A → GattcEvent) → Option (Option A) → S → Option (ℕ × S)
    found cb event none s = none
    found cb event (some item) s = some (0, cb (event item) s)

    -- `disc_svc_cb`
    unfoldable pub disc_svc_cb :
        Option (Hook S) → ℕ → Option ℕ → Option RawService → S → Option (ℕ × S)
    disc_svc_cb none conn_handle error service s = some (0, s)
    disc_svc_cb (some cb) conn_handle error service s =
        found cb (service_found conn_handle (error_status error)) (then_from gattc_service service)
          s

    -- `disc_chr_cb`
    unfoldable pub disc_chr_cb : Option (Hook S) → ℕ → Option ℕ → Option RawChr → S → Option (ℕ × S)
    disc_chr_cb none conn_handle error chr s = some (0, s)
    disc_chr_cb (some cb) conn_handle error chr s =
        found cb (characteristic_found conn_handle (error_status error)) (then_from gattc_chr chr) s

module _ {S : Type 0} where
  -- `read_cb`
  unfoldable pub read_cb : Option (Hook S) → ℕ → Option ℕ → Option RawAttr → S → ℕ × S
  read_cb none conn_handle error attr s = (0, s)
  read_cb (some cb) conn_handle error attr s =
      (0, cb (read_complete conn_handle (error_status error) (handle_of attr) (om_of attr)) s)

  -- `write_cb`
  unfoldable pub write_cb : Option (Hook S) → ℕ → Option ℕ → Option RawAttr → S → ℕ × S
  write_cb none conn_handle error attr s = (0, s)
  write_cb (some cb) conn_handle error attr s =
      (0, cb (write_complete conn_handle (error_status error) (handle_of attr)) s)

module _ {H : Type 0} (host : GattcHost H) where
  -- `Ble::connect`
  unfoldable pub connect : ℕ → BleAddr → H → Result {0} Unit × H
  connect own_addr_type peer h =
      checked (host.ble_gap_connect own_addr_type peer ble_hs_forever on_gap_event h)

  -- `Ble::disconnect`, for the reason `BLE_ERR_REM_USER_CONN_TERM`
  unfoldable pub disconnect : ℕ → H → Result {0} Unit × H
  disconnect conn_handle h = checked (host.ble_gap_terminate conn_handle 19 h)

  -- `Ble::discover_services`
  unfoldable pub discover_services : ℕ → H → Result {0} Unit × H
  discover_services conn_handle h = checked (host.ble_gattc_disc_all_svcs conn_handle on_disc_svc h)

  -- `Ble::discover_characteristics`
  unfoldable pub discover_characteristics :
      (conn_handle start_handle end_handle : ℕ) → H → Result {0} Unit × H
  discover_characteristics conn_handle start_handle end_handle h =
      checked (host.ble_gattc_disc_all_chrs conn_handle start_handle end_handle on_disc_chr h)

  -- `Ble::read`
  unfoldable pub read : (conn_handle attr_handle : ℕ) → H → Result {0} Unit × H
  read conn_handle attr_handle h = checked (host.ble_gattc_read conn_handle attr_handle on_read h)

  -- `Ble::write`
  unfoldable pub write : (conn_handle attr_handle : ℕ) → List ℕ → H → Result {0} Unit × H
  write conn_handle attr_handle bytes h =
      checked (host.ble_gattc_write_flat conn_handle attr_handle (passed bytes) on_write h)

  -- `Ble::write_cmd`
  unfoldable pub write_cmd : (conn_handle attr_handle : ℕ) → List ℕ → H → Result {0} Unit × H
  write_cmd conn_handle attr_handle bytes h =
      checked (host.ble_gattc_write_no_rsp_flat conn_handle attr_handle (passed bytes) h)
