-- ===== src/Ppp/Negotiation.antt =====
-- What holds of the option negotiation automaton of pppoe/ppp/option_fsm.rs.
pub mod Cases
pub mod Invariant
pub mod Graph
pub mod Opening
pub mod Timer
pub mod Answer
pub mod Framing
pub mod Data
mod Tests
pub mod Table
pub mod Moves
