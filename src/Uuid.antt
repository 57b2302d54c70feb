-- ===== src/Uuid.antt =====
-- `BleUuid` and `BleAddr` of nimble-rs/src/lib.rs. What stands in memory behind a `ble_uuid_t` header is
-- given by what a reader of each body finds there, if it is there.
use nimble_rs.Base.{
  ℕ, zero, suc, ◌+◌, ◌*◌, ◌/◌, ◌%◌, ◌^◌, ◌<◌, ◌≡◌, ◌≢◌, Option, none, some, List, [], ◌∷◌, arith,
  if◌then◌else◌, ◌==◌,
}

-- `BleUuid`: a 16-bit value, or 16 bytes, least significant first.
pub data BleUuid : Type 0 where
  uuid16 : ℕ → BleUuid
  uuid128 : List ℕ → BleUuid

-- `BLE_UUID_TYPE_16` and `BLE_UUID_TYPE_128`
pub record UuidTypes : Type 0 where
  pub type_16 : ℕ
  pub type_128 : ℕ

pub record RawUuid : Type 0 where
  pub type_ : ℕ
  pub value16 : Option ℕ
  pub value128 : Option (List ℕ)

-- `to_le_bytes` of a number of `n` bytes.
unfoldable pub le_bytes : ℕ → ℕ → List ℕ
le_bytes zero x = []
le_bytes (suc n) x = (x % 256) ∷ le_bytes n (x / 256)

-- `from_le_bytes`
unfoldable pub of_le_bytes : List ℕ → ℕ
of_le_bytes [] = 0
of_le_bytes (b ∷ bs) = b + 256 * of_le_bytes bs

-- `BleUuid::uuid16`
abbrev pub make_uuid16 : ℕ → BleUuid
make_uuid16 uuid = uuid16 uuid

-- `BleUuid::uuid128`
abbrev pub make_uuid128 : ℕ → BleUuid
make_uuid128 uuid = uuid128 (le_bytes 16 uuid)

abbrev pub as_uuid16 : Option ℕ → Option BleUuid
as_uuid16 none = none
as_uuid16 (some v) = some (uuid16 v)

abbrev pub as_uuid128 : Option (List ℕ) → Option BleUuid
as_uuid128 none = none
as_uuid128 (some v) = some (uuid128 v)

-- `BleUuid::as_ptr`, by what stands there.
unfoldable pub as_ptr : UuidTypes → BleUuid → RawUuid
as_ptr types (uuid16 v) = record { type_ = types.type_16; value16 = some v; value128 = none }
as_ptr types (uuid128 v) = record { type_ = types.type_128; value16 = none; value128 = some v }

-- `BleUuid::from_raw`: none where the body is not there.
unfoldable pub from_raw : UuidTypes → RawUuid → Option BleUuid
from_raw types uuid =
    if uuid.type_ == types.type_128 then as_uuid128 uuid.value128 else as_uuid16 uuid.value16

-- `BleAddr`: a type, and 6 bytes.
abbrev pub BleAddr : Type 0
BleAddr = ℕ × List ℕ

pub from_raw-as_ptr :
    (types : UuidTypes) (u : BleUuid)
    → types.type_16 ≢ types.type_128
    → from_raw types (as_ptr types u) ≡ some u
unfolding from_raw as_ptr
from_raw-as_ptr types (uuid16 v) h = ground arith
from_raw-as_ptr types (uuid128 v) h = ground arith

pub of_le_bytes-le_bytes : (n x : ℕ) → x < 256 ^ n → of_le_bytes (le_bytes n x) ≡ x
unfolding of_le_bytes le_bytes
of_le_bytes-le_bytes zero x h = omega arith
of_le_bytes-le_bytes (suc n) x h = omega (arith, of_le_bytes-le_bytes n (x / 256) (omega arith))
