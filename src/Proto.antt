-- ===== src/Proto.antt =====
-- src/proto.rs: the control messages and their encoding.
pub mod Types
pub mod Writer
pub mod Utf8
pub mod Reader
pub mod Parts
pub mod Snapshot
pub mod Msg
pub mod Arms
pub mod Decode
pub mod Reads
pub mod Encoded
pub mod PartReads
pub mod SnapshotReads
pub mod Ends
pub mod ArmReads
pub mod Valid
pub mod ClientTrip
pub mod AdminTrip
pub mod PeerTrip
pub mod SnapshotTrip
pub mod RoundTrip
mod Tests
