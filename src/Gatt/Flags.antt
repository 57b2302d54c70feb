-- ===== src/Gatt/Flags.antt =====
-- `BleGattCharFlag` of nimble-rs/src/gatt.rs and its C bits, which are parameters.
use nimble_rs.Base.{ℕ, List, map}

-- `BleGattCharFlag`
pub data BleGattCharFlag : Type 0 where
  broadcast read write_no_rsp write notify indicate auth_sign_write : BleGattCharFlag
  reliable_write aux_write read_enc read_authen read_author : BleGattCharFlag
  write_enc write_authen write_author : BleGattCharFlag
  notify_indicate_enc notify_indicate_authen notify_indicate_author : BleGattCharFlag

-- `BLE_GATT_CHR_F_*`
pub record CharFlagBits : Type 0 where
  pub broadcast : ℕ
  pub read : ℕ
  pub write_no_rsp : ℕ
  pub write : ℕ
  pub notify : ℕ
  pub indicate : ℕ
  pub auth_sign_write : ℕ
  pub reliable_write : ℕ
  pub aux_write : ℕ
  pub read_enc : ℕ
  pub read_authen : ℕ
  pub read_author : ℕ
  pub write_enc : ℕ
  pub write_authen : ℕ
  pub write_author : ℕ
  pub notify_indicate_enc : ℕ
  pub notify_indicate_authen : ℕ
  pub notify_indicate_author : ℕ

-- `BleGattCharFlag::repr`
unfoldable pub repr : CharFlagBits → BleGattCharFlag → ℕ
repr bits broadcast = bits.broadcast
repr bits read = bits.read
repr bits write_no_rsp = bits.write_no_rsp
repr bits write = bits.write
repr bits notify = bits.notify
repr bits indicate = bits.indicate
repr bits auth_sign_write = bits.auth_sign_write
repr bits reliable_write = bits.reliable_write
repr bits aux_write = bits.aux_write
repr bits read_enc = bits.read_enc
repr bits read_authen = bits.read_authen
repr bits read_author = bits.read_author
repr bits write_enc = bits.write_enc
repr bits write_authen = bits.write_authen
repr bits write_author = bits.write_author
repr bits notify_indicate_enc = bits.notify_indicate_enc
repr bits notify_indicate_authen = bits.notify_indicate_authen
repr bits notify_indicate_author = bits.notify_indicate_author

-- The bits that a characteristic's flags stand for, as `flags_to_repr` takes them.
abbrev pub bits_of : CharFlagBits → List BleGattCharFlag → List ℕ
bits_of bits flags = map (repr bits) flags
