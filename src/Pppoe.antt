-- ===== src/Pppoe.antt =====
-- src/pppoe: the session frames (session.rs), discovery (discovery.rs) and the redial pacing
-- (redial.rs).
pub mod Frame
pub mod Discovery
pub mod Redial
mod Tests
