-- ===== src/Driver.antt =====
-- The driver singleton of nimble-rs/src/lib.rs, with the sequences of nimble-rs/src/port.rs that
-- bring the C host up and down. The C host's functions are parameters.
pub mod Single
pub mod Calls
pub mod Run
mod Examples
use nimble_rs.Base.{ℕ, Bool, true, false, Option, none, some, if◌then◌else◌, ◌==◌}
use nimble_rs.Error.{BleError, Result, ok, err, check}

-- The C functions that bring the host up and down, by what they do to its state.
pub record HostC (H : Type 0) : Type 0 where
  pub os_mempool_module_init : H → H
  pub ble_buf_alloc : H → ℕ × H
  pub ble_buf_free : H → H
  pub ble_transport_init : H → H
  pub ble_npl_eventq_init : H → H
  pub os_msys_init : H → H
  pub ble_transport_hs_init : H → H
  pub ble_transport_ll_init : H → H
  pub ble_npl_eventq_deinit : H → H
  pub ble_hs_deinit : H → H
  pub ble_transport_ll_deinit : H → H
  pub ble_transport_deinit : H → H
  pub ble_svc_gap_init : H → H
  pub ble_svc_gatt_init : H → H
  pub ble_store_ram_init : H → H
  pub ble_gatts_count_cfg : ℕ → H → ℕ × H
  pub ble_gatts_add_svcs : ℕ → H → ℕ × H

-- The callbacks of `ble_hs_cfg`, and the slots of the library, by the address of what they hold.
pub record Slots : Type 0 where
  pub sync_cb : Bool
  pub reset_cb : Bool
  pub gatts_register_cb : Bool
  pub parker : Option ℕ
  pub host_callback : Option ℕ
  pub gap_callback : Option ℕ
  pub gatts_callback : Option ℕ
  pub gattc_callback : Option ℕ
  pub l2cap_callback : Option ℕ

-- `TAKEN`, the slots and the C host.
pub record Process (H : Type 0) : Type 0 where
  pub taken : Bool
  pub slots : Slots
  pub host : H

abbrev pub no_slots : Slots
no_slots = record {
  sync_cb = false;
  reset_cb = false;
  gatts_register_cb = false;
  parker = none;
  host_callback = none;
  gap_callback = none;
  gatts_callback = none;
  gattc_callback = none;
  l2cap_callback = none;
}

module _ {H : Type 0} (c : HostC H) (ealready enomem : ℕ) (peripheral : Bool) where
  -- `port::init` after `os_mempool_module_init` and `ble_buf_alloc`
  abbrev port_up : ℕ × H → Bool × H
  port_up (code, h) =
      if code == 0
      then (
        true,
        c.ble_transport_ll_init (
            c.ble_transport_hs_init
              (c.os_msys_init (c.ble_npl_eventq_init (c.ble_transport_init h)))),
      )
      else (false, c.ble_buf_free h)

  -- `port::init`, with whether it succeeded.
  pub port_init : H → Bool × H
  port_init h = port_up (c.ble_buf_alloc (c.os_mempool_module_init h))

  -- `port::deinit`
  pub port_deinit : H → H
  port_deinit h = c.ble_buf_free (
      c.ble_transport_deinit
        (c.ble_transport_ll_deinit (c.ble_hs_deinit (c.ble_npl_eventq_deinit h))))

  abbrev set_host_callbacks : Slots → Slots
  set_host_callbacks s = record {
    sync_cb = true;
    reset_cb = true;
    gatts_register_cb = s.gatts_register_cb;
    parker = s.parker;
    host_callback = s.host_callback;
    gap_callback = s.gap_callback;
    gatts_callback = s.gatts_callback;
    gattc_callback = s.gattc_callback;
    l2cap_callback = s.l2cap_callback;
  }

  abbrev set_register_callback : Slots → Slots
  set_register_callback s = record {
    sync_cb = s.sync_cb;
    reset_cb = s.reset_cb;
    gatts_register_cb = true;
    parker = s.parker;
    host_callback = s.host_callback;
    gap_callback = s.gap_callback;
    gatts_callback = s.gatts_callback;
    gattc_callback = s.gattc_callback;
    l2cap_callback = s.l2cap_callback;
  }

  abbrev set_parker : Option ℕ → Slots → Slots
  set_parker p s = record {
    sync_cb = s.sync_cb;
    reset_cb = s.reset_cb;
    gatts_register_cb = s.gatts_register_cb;
    parker = p;
    host_callback = s.host_callback;
    gap_callback = s.gap_callback;
    gatts_callback = s.gatts_callback;
    gattc_callback = s.gattc_callback;
    l2cap_callback = s.l2cap_callback;
  }

  abbrev services_up : H → H
  services_up h = if peripheral then c.ble_svc_gatt_init (c.ble_svc_gap_init h) else h

  abbrev init_up : Slots → Bool × H → Result {0} Unit × Process H
  init_up s (true, h) = (
    ok tt,
    record {
      taken = true;
      slots = set_host_callbacks s;
      host = c.ble_store_ram_init (services_up h);
    },
  )
  init_up s (false, h) = (err enomem, record { taken = false; slots = s; host = h })

  -- `Ble::init`
  pub init : Process H → Result {0} Unit × Process H
  init p =
      if p.taken
      then (err ealready, record { taken = true; slots = p.slots; host = p.host })
      else init_up p.slots (port_init p.host)

  -- `Drop for Ble`
  pub drop : Process H → Process H
  drop p = record { taken = false; slots = no_slots; host = port_deinit p.host }

  -- `Ble::new`
  abbrev pub new : Process H → Result {0} Unit × Process H
  new p = init p

  abbrev count_up : ℕ → ℕ × H → Result {0} Unit × H
  count_up defs (code, h) =
      if code == 0
      then (check (c.ble_gatts_add_svcs defs h).0, (c.ble_gatts_add_svcs defs h).1)
      else (err code, h)

  abbrev with_table : Process H → Result {0} Unit × H → Result {0} Unit × Process H
  with_table p (ok u, h) =
      (ok tt, record { taken = p.taken; slots = set_register_callback p.slots; host = h })
  with_table p (err e, h) =
      (err e, drop (record { taken = p.taken; slots = set_register_callback p.slots; host = h }))

  abbrev add_table : ℕ → Result {0} Unit × Process H → Result {0} Unit × Process H
  add_table defs (err e, p) = (err e, p)
  add_table defs (ok u, p) = with_table p (count_up defs (c.ble_gatts_count_cfg defs p.host))

  -- `Ble::new_with_services`, with the address of the table.
  pub new_with_services : ℕ → Process H → Result {0} Unit × Process H
  new_with_services defs p = add_table defs (init p)

  abbrev use_parker : ℕ → Result {0} Unit × Process H → Result {0} Unit × Process H
  use_parker parker (err e, p) = (err e, p)
  use_parker parker (ok u, p) =
      (ok tt, record { taken = p.taken; slots = set_parker (some parker) p.slots; host = p.host })

  -- `Ble::new_with_parker`
  pub new_with_parker : ℕ → Process H → Result {0} Unit × Process H
  new_with_parker parker p = use_parker parker (new p)

  -- `Ble::new_with_services_and_parker`
  pub new_with_services_and_parker : ℕ → ℕ → Process H → Result {0} Unit × Process H
  new_with_services_and_parker defs parker p = use_parker parker (new_with_services defs p)
