-- ===== src/Gatt.antt =====
-- The runtime service table of nimble-rs/src/gatt/server.rs, `BleGattServices::new`, in the slices of
-- nimble-rs/src/mem.rs. A pointer into a sibling slice is the index there, and none is null; a UUID
-- is a number. The C heap's grants and the values of the C constants are parameters.
pub mod Events
pub mod Flags
pub mod Client
pub mod Server
pub mod Discovery
pub mod Heap
pub mod Leaks
pub mod Chrs
pub mod Table
pub mod Static
pub mod Views
use nimble_rs.Base.{
  ℕ, zero, suc, ◌+◌, Bool, true, false, Option, none, some, List, [], ◌∷◌, length, if◌then◌else◌,
  ltb, ◌==◌, ◌||◌, ◌&&◌, update,
}
use Prim.Native.Nat.{bit_or}
use nimble_rs.Error.{Result, ok, err}
use nimble_rs.Hci.Packet.{◌>>=◌}

-- `CSlice`: its length, and what stands at each index below it.
pub record CSlice (A : Type 0) : Type 0 where
  pub len : ℕ
  pub item : ℕ → A

-- `slice[at] = x`: none where the index is out of bounds.
abbrev pub set_item : {A : Type 0} → ℕ → A → CSlice A → Option (CSlice A)
set_item at x s =
    if ltb at s.len then some (record { len = s.len; item = update s.item at x }) else none

-- Whether `CSlice::new_zeroed` succeeds, where `granted` says whether the C heap has the memory.
abbrev pub is_granted : Bool → ℕ → Bool
is_granted granted len = (len == 0) || granted

-- `BleGattCharacteristic`, its flags by their bits in `EnumSet` order.
pub record BleGattCharacteristic : Type 0 where
  pub uuid : ℕ
  pub flags : List ℕ

-- `BleGattService`
pub record BleGattService : Type 0 where
  pub primary : Bool
  pub uuid : ℕ
  pub characteristics : List BleGattCharacteristic

-- `ble_gatt_chr_def`, as far as `BleGattServices::new` fills it in.
pub record ChrDef : Type 0 where
  pub uuid : Option ℕ
  pub access_cb : Bool
  pub flags : ℕ

-- `ble_gatt_svc_def`
pub record SvcDef : Type 0 where
  pub type_ : ℕ
  pub uuid : Option ℕ
  pub characteristics : Option ℕ

-- The terminators, which are all zeros.
abbrev pub zero_chr : ChrDef
zero_chr = record { uuid = none; access_cb = false; flags = 0 }

abbrev pub zero_svc : SvcDef
zero_svc = record { type_ = 0; uuid = none; characteristics = none }

-- `BleGattServices`
pub record BleGattServices : Type 0 where
  pub chars : CSlice BleGattCharacteristic
  pub svc_uuids : CSlice ℕ
  pub chr_defs : CSlice ChrDef
  pub svc_defs : CSlice SvcDef

-- `flags_to_repr`
pub flags_to_repr : List ℕ → ℕ → ℕ
flags_to_repr [] acc = acc
flags_to_repr (flag ∷ flags) acc = flags_to_repr flags (bit_or acc flag)

-- The definition of a characteristic that stands at `char_at`.
abbrev pub chr_def : ℕ → BleGattCharacteristic → ChrDef
chr_def char_at chr = record {
  uuid = some char_at;
  access_cb = true;
  flags = flags_to_repr chr.flags 0;
}

-- The table, `char_at` and `def_at`.
abbrev pub Building : Type 0
Building = BleGattServices × ℕ × ℕ

-- The body of the loop over a service's characteristics.
pub add_chr : BleGattCharacteristic → Building → Option Building
add_chr chr (t, char_at, def_at) = do
  chars ← set_item char_at chr t.chars
  chr_defs ← set_item def_at (chr_def char_at chr) t.chr_defs
  some (
    record { chars = chars; svc_uuids = t.svc_uuids; chr_defs = chr_defs; svc_defs = t.svc_defs },
    char_at + 1,
    def_at + 1,
  )

pub add_chrs : List BleGattCharacteristic → Building → Option Building
add_chrs [] b = some b
add_chrs (chr ∷ chrs) b = add_chr chr b >>= add_chrs chrs

-- `def_at += 1`
abbrev pub skip_terminator : Building → Option Building
skip_terminator (t, char_at, def_at) = some (t, char_at, def_at + 1)

abbrev pub total_chars : List BleGattService → ℕ
total_chars [] = 0
total_chars (s ∷ ss) = length s.characteristics + total_chars ss

abbrev zero_characteristic : BleGattCharacteristic
zero_characteristic = record { uuid = 0; flags = [] }

-- The zeroed slices, if the C heap grants all four.
abbrev pub zeroed_slices : List BleGattService → BleGattServices
zeroed_slices services = record {
  chars = record { len = total_chars services; item = λ _. zero_characteristic };
  svc_uuids = record { len = length services; item = λ _. 0 };
  chr_defs = record { len = total_chars services + length services; item = λ _. zero_chr };
  svc_defs = record { len = length services + 1; item = λ _. zero_svc };
}

-- Whether the C heap grants the four slices.
abbrev pub has_memory : (ℕ → Bool) → List BleGattService → Bool
has_memory granted services =
    is_granted (granted 0) (total_chars services)
    && is_granted (granted 1) (length services)
    && is_granted (granted 2) (total_chars services + length services)
    && is_granted (granted 3) (length services + 1)

abbrev pub built : Option Building → Option (Result BleGattServices)
built none = none
built (some b) = some (ok b.0)

module _ (type_primary type_secondary : ℕ) where
  abbrev pub svc_def : ℕ → ℕ → BleGattService → SvcDef
  svc_def svc_at def_at service = record {
    type_ = if service.primary then type_primary else type_secondary;
    uuid = some svc_at;
    characteristics = some def_at;
  }

  -- The body of the loop over the services, up to its inner loop.
  pub add_header : ℕ → BleGattService → Building → Option Building
  add_header svc_at service (t, char_at, def_at) = do
    svc_uuids ← set_item svc_at service.uuid t.svc_uuids
    svc_defs ← set_item svc_at (svc_def svc_at def_at service) t.svc_defs
    some (
      record { chars = t.chars; svc_uuids = svc_uuids; chr_defs = t.chr_defs; svc_defs = svc_defs },
      char_at,
      def_at,
    )

  -- The loop over the services, from the place `svc_at` on.
  pub add_services : ℕ → List BleGattService → Building → Option Building
  add_services svc_at [] b = some b
  add_services svc_at (service ∷ services) b =
      add_header svc_at service b
      >>= add_chrs service.characteristics
      >>= skip_terminator
      >>= add_services (svc_at + 1) services

  -- `BleGattServices::new`
  pub new : ℕ → (ℕ → Bool) → List BleGattService → Option (Result BleGattServices)
  new enomem granted services =
      if has_memory granted services
      then built (add_services 0 services (zeroed_slices services, 0, 0))
      else some (err enomem)
