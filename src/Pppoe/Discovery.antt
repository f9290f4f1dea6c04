-- ===== src/Pppoe/Discovery.antt =====
-- src/pppoe/discovery.rs: PPPoE discovery.
pub mod Tags
pub mod Packets
pub mod Machine
pub mod Laws
pub mod RoundTrip
pub mod Safety
pub mod Effects
pub mod Established
pub mod Retry
mod Tests
