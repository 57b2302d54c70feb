-- ===== src/Gatt/Static.antt =====
-- The static service tables of nimble-rs/src/gatt/server.rs: what `gatt_services!` expands to. A pointer
-- to another static item is given by what it points to, and null is none.
use nimble_rs.Base.{ℕ, Bool, true, false, Option, none, some, List, [], ◌∷◌, if◌then◌else◌}
use nimble_rs.Gatt.{BleGattCharacteristic, BleGattService, flags_to_repr}

-- `ble_gatt_chr_def` in a static table.
pub record StaticChr : Type 0 where
  pub uuid : Option ℕ
  pub access_cb : Bool
  pub flags : ℕ

-- `ble_gatt_svc_def` in a static table.
pub record StaticSvc : Type 0 where
  pub type_ : ℕ
  pub uuid : Option ℕ
  pub characteristics : Option (List StaticChr)

-- `CHR_SENTINEL`
abbrev pub chr_sentinel : StaticChr
chr_sentinel = record { uuid = none; access_cb = false; flags = 0 }

-- `SVC_SENTINEL`
abbrev pub svc_sentinel : StaticSvc
svc_sentinel = record { type_ = 0; uuid = none; characteristics = none }

-- `make_chr`
unfoldable pub make_chr : ℕ → ℕ → StaticChr
make_chr uuid flags = record { uuid = some uuid; access_cb = true; flags = flags }

-- The array `CHRS` of a service, with its flags or-ed in the order in which they are written.
unfoldable pub chrs : List BleGattCharacteristic → List StaticChr
chrs [] = chr_sentinel ∷ []
chrs (c ∷ cs) = make_chr c.uuid (flags_to_repr c.flags 0) ∷ chrs cs

module _ (type_primary type_secondary : ℕ) where
  -- `make_svc`
  unfoldable pub make_svc : Bool → ℕ → List StaticChr → StaticSvc
  make_svc primary uuid characteristics = record {
    type_ = if primary then type_primary else type_secondary;
    uuid = some uuid;
    characteristics = some characteristics;
  }

  -- `gatt_services!`
  unfoldable pub gatt_services : List BleGattService → List StaticSvc
  gatt_services [] = svc_sentinel ∷ []
  gatt_services (s ∷ ss) = make_svc s.primary s.uuid (chrs s.characteristics) ∷ gatt_services ss
