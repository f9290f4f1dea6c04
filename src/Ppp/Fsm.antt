-- ===== src/Ppp/Fsm.antt =====
-- src/pppoe/ppp/option_fsm.rs: the option negotiation automaton of RFC 1661.
mod Defs
mod Send
mod Request
mod Receive
unfoldable pub use Defs.*
unfoldable pub use Send.*
unfoldable pub use Request.*
unfoldable pub use Receive.*
