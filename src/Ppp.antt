-- ===== src/Ppp.antt =====
-- The PPP stack of pppoe/ppp.
pub mod Wire
pub mod Options
pub mod Fsm
pub mod Negotiation
pub mod Lcp
pub mod Ipcp
pub mod Pap
pub mod Chap
pub mod Link
pub mod Session
mod Tests
