-- ===== src/Features.antt =====
-- The resolution of Cargo features to the C host's settings, nimble-rs-sys/gen/features.rs.
pub mod Tables
pub mod Knobs
pub mod Parse
pub mod Resolve
pub mod Prebuilt
pub mod Delta
pub mod Same
pub mod Value
pub mod Settings
mod Examples
