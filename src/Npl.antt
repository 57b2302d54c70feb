-- ===== src/Npl.antt =====
-- The porting layer, nimble-rs/src/npl.rs.
pub mod Store
pub mod Chain
pub mod Eventq
pub mod Timers
pub mod Wait
pub mod Parker
pub mod Blocking
pub mod Sem
pub mod Mutex
pub mod Critical
pub mod Time
pub mod Sample
mod Examples
