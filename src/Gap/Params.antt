-- ===== src/Gap/Params.antt =====
-- The parameters of advertising and of discovery in nimble-rs/src/gap.rs, and their conversion to the C
-- host's structures. A slice that the C host is pointed to is given by its bytes, and null is none.
use nimble_rs.Base.{ℕ, ◌%◌, Bool, Option, none, some, List, length, if◌then◌else◌}

-- `BleAdvParams`
pub record BleAdvParams : Type 0 where
  pub conn_mode : ℕ
  pub disc_mode : ℕ
  pub itvl_min : ℕ
  pub itvl_max : ℕ
  pub channel_map : ℕ
  pub filter_policy : ℕ
  pub high_duty_cycle : Bool

-- `ble_gap_adv_params`
pub record RawAdvParams : Type 0 where
  pub conn_mode : ℕ
  pub disc_mode : ℕ
  pub itvl_min : ℕ
  pub itvl_max : ℕ
  pub channel_map : ℕ
  pub filter_policy : ℕ
  pub high_duty_cycle : ℕ

-- A bit field of one bit.
abbrev pub bit : Bool → ℕ
bit b = if b then 1 else 0

-- `ble_gap_adv_params::from`
unfoldable pub raw_adv_params : BleAdvParams → RawAdvParams
raw_adv_params p = record {
  conn_mode = p.conn_mode;
  disc_mode = p.disc_mode;
  itvl_min = p.itvl_min;
  itvl_max = p.itvl_max;
  channel_map = p.channel_map;
  filter_policy = p.filter_policy;
  high_duty_cycle = bit p.high_duty_cycle;
}

-- `BleAdvFields`
pub record BleAdvFields : Type 0 where
  pub flags : ℕ
  pub name : Option (List ℕ)
  pub tx_power_level : Option ℕ
  pub appearance : Option ℕ
  pub service_data_uuid16 : Option (List ℕ)
  pub manufacturer_data : Option (List ℕ)

-- `ble_hs_adv_fields`, those that the conversion sets.
pub record RawAdvFields : Type 0 where
  pub flags : ℕ
  pub name : Option (List ℕ)
  pub name_len : ℕ
  pub name_is_complete : ℕ
  pub tx_pwr_lvl : ℕ
  pub tx_pwr_lvl_is_present : ℕ
  pub appearance : ℕ
  pub appearance_is_present : ℕ
  pub svc_data_uuid16 : Option (List ℕ)
  pub svc_data_uuid16_len : ℕ
  pub mfg_data : Option (List ℕ)
  pub mfg_data_len : ℕ

-- `slice.len() as u8`, or the zero that stands there without a slice.
abbrev pub len_u8 : Option (List ℕ) → ℕ
len_u8 none = 0
len_u8 (some bytes) = length bytes % 256

abbrev pub value_or_zero : Option ℕ → ℕ
value_or_zero none = 0
value_or_zero (some n) = n

-- A presence bit.
abbrev pub present {ℓ} : {A : Type ℓ} → Option A → ℕ
present none = 0
present (some x) = 1

-- `ble_hs_adv_fields::from`
unfoldable pub raw_adv_fields : BleAdvFields → RawAdvFields
raw_adv_fields f = record {
  flags = f.flags;
  name = f.name;
  name_len = len_u8 f.name;
  name_is_complete = present f.name;
  tx_pwr_lvl = value_or_zero f.tx_power_level;
  tx_pwr_lvl_is_present = present f.tx_power_level;
  appearance = value_or_zero f.appearance;
  appearance_is_present = present f.appearance;
  svc_data_uuid16 = f.service_data_uuid16;
  svc_data_uuid16_len = len_u8 f.service_data_uuid16;
  mfg_data = f.manufacturer_data;
  mfg_data_len = len_u8 f.manufacturer_data;
}

-- `BleDiscParams`
pub record BleDiscParams : Type 0 where
  pub itvl : ℕ
  pub window : ℕ
  pub filter_policy : ℕ
  pub limited : Bool
  pub passive : Bool
  pub filter_duplicates : Bool

-- `ble_gap_disc_params`
pub record RawDiscParams : Type 0 where
  pub itvl : ℕ
  pub window : ℕ
  pub filter_policy : ℕ
  pub limited : ℕ
  pub passive : ℕ
  pub filter_duplicates : ℕ

-- `ble_gap_disc_params::from`
unfoldable pub raw_disc_params : BleDiscParams → RawDiscParams
raw_disc_params p = record {
  itvl = p.itvl;
  window = p.window;
  filter_policy = p.filter_policy;
  limited = bit p.limited;
  passive = bit p.passive;
  filter_duplicates = bit p.filter_duplicates;
}
