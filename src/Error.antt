-- ===== src/Error.antt =====
-- `BleError` of nimble-rs/src/lib.rs: the C host's codes as results.
use nimble_rs.Base.{ℕ, if◌then◌else◌, ◌==◌}

-- A code other than 0.
abbrev pub BleError : Type 0
BleError = ℕ

pub data Result {ℓ} (A : Type ℓ) : Type ℓ where
  ok : A → Result A
  err : BleError → Result A

-- `BleError::check`
abbrev pub check : ℕ → Result {0} Unit
check code = if code == 0 then ok tt else err code
