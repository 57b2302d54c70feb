-- ===== src/Hci.antt =====
-- The HCI bridge, nimble-rs/src/hci.rs.
pub mod Packet
pub mod Ack
pub mod Commands
pub mod Mask
pub mod Dispatch
pub mod Transport
pub mod Pump
mod Examples
