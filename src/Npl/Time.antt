-- ===== src/Npl/Time.antt =====
-- Time of nimble-rs/src/npl.rs: a tick is a millisecond, in a `u32` that wraps.
pub mod Laws
use nimble_rs.Base.{ℕ, ◌%◌, ◌^◌, ◌-◌}

-- `ble_npl_time_get`, with `now` the clock in milliseconds.
pub time_get : ℕ → ℕ
time_get now = now % 2 ^ 32

-- `ble_npl_time_ms_to_ticks` and `ble_npl_time_ms_to_ticks32`
pub time_ms_to_ticks : ℕ → ℕ
time_ms_to_ticks ms = ms

-- `ble_npl_time_ticks_to_ms` and `ble_npl_time_ticks_to_ms32`
pub time_ticks_to_ms : ℕ → ℕ
time_ticks_to_ms ticks = ticks
