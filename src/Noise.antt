-- ===== src/Noise.antt =====
-- src/noise.rs and src/dgram.rs: the handshakes and the transports of encrypted connections.
pub mod Primitives
pub mod Symmetric
pub mod Xx
pub mod Agreement
pub mod Exchange
pub mod Window
pub mod Replay
pub mod Refinement
pub mod Transport
pub mod Delivery
pub mod Preface
pub mod Nn
pub mod NnLaws
pub mod Claim
mod Tests
pub mod Stream
pub mod Frames
pub mod Resume
pub mod Framing
pub mod Sending
pub mod Announce
pub mod Datagram
pub mod DatagramLaws
pub mod DatagramRuns
mod DatagramTests
