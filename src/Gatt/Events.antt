-- ===== src/Gatt/Events.antt =====
-- The events of the GATT server and client, nimble-rs/src/gatt/server.rs and
-- nimble-rs/src/gatt/client.rs. An mbuf is given by its address, 0 being null.
use nimble_rs.Base.{ℕ, Bool, Option}
use nimble_rs.Uuid.{BleUuid}

-- `SubscribeReason`
pub data SubscribeReason : Type 0 where
  write : SubscribeReason
  term : SubscribeReason
  restore : SubscribeReason
  other_reason : ℕ → SubscribeReason

-- `BleGattRegister`
pub data BleGattRegister : Type 0 where
  service : (uuid : BleUuid) (handle : ℕ) → BleGattRegister
  characteristic : (uuid : BleUuid) (def_handle val_handle : ℕ) → BleGattRegister
  descriptor : (uuid : BleUuid) (handle : ℕ) → BleGattRegister
  other : BleGattRegister

-- `GattsEvent`
pub data GattsEvent : Type 0 where
  register : BleGattRegister → GattsEvent
  read : (conn_handle attr_handle offset reply : ℕ) → GattsEvent
  written : (conn_handle attr_handle mbuf : ℕ) → GattsEvent
  subscription_changed : ℕ → ℕ → SubscribeReason → Bool → Bool → Bool → Bool → GattsEvent
  notify_complete : ℕ → ℕ → Bool → ℕ → GattsEvent

-- `GattcService`
pub record GattcService : Type 0 where
  pub start_handle : ℕ
  pub end_handle : ℕ
  pub uuid : BleUuid

-- `GattcChr`
pub record GattcChr : Type 0 where
  pub def_handle : ℕ
  pub val_handle : ℕ
  pub properties : ℕ
  pub uuid : BleUuid

-- `GattcEvent`
pub data GattcEvent : Type 0 where
  service_found : (conn_handle status : ℕ) → Option GattcService → GattcEvent
  characteristic_found : (conn_handle status : ℕ) → Option GattcChr → GattcEvent
  read_complete : (conn_handle status attr_handle mbuf : ℕ) → GattcEvent
  write_complete : (conn_handle status attr_handle : ℕ) → GattcEvent
  notify : ℕ → ℕ → Bool → ℕ → GattcEvent
