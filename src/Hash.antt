-- ===== src/Hash.antt =====
-- src/hash.rs: BLAKE2s and HMAC-BLAKE2s.
pub mod Compress
pub mod Blake2s
pub mod Stream
pub mod Hmac
pub mod Digest
mod Tests
