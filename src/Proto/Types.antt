-- ===== src/Proto/Types.antt =====
-- src/proto.rs: the types of the messages. A `u8` to `u64`, an address or a port is a number, a
-- string the list of its UTF-8 bytes, a fixed array a list of its length.
use zeronat.Base.{ℕ, Bool, Option, none, some, List}

pub data Proto : Type 0 where
  tcp udp : Proto

pub data Source : Type 0 where
  file cli runtime : Source

pub data PeerStatus : Type 0 where
  accepted unknown_peer peer_offline not_provided peer_busy server_failure : PeerStatus

pub data PathStatus : Type 0 where
  direct relay : PathStatus

pub data PeerRefuseReason : Type 0 where
  malformed_identity failed_proof challenge_failed identity_claimed : PeerRefuseReason

pub data IpAddr : Type 0 where
  v4 : ℕ → IpAddr
  v6 : List ℕ → IpAddr

-- The flow label and the scope of an address of version 6 are left out, as the encoding does.
pub record SocketAddr : Type 0 where
  pub ip : IpAddr
  pub port : ℕ

pub record Listener : Type 0 where
  pub bind_ip : ℕ
  pub proto : Proto
  pub port : ℕ
  pub source : Source

pub record FwdOptionEntry : Type 0 where
  pub proto : Proto
  pub port : ℕ
  pub proxy : Bool
  pub idle_secs : ℕ

pub record ClientEntry : Type 0 where
  pub client_id : List ℕ
  pub transport : ℕ
  pub fwd : List FwdOptionEntry

pub record RouteEntry : Type 0 where
  pub bind_ip : ℕ
  pub proto : Proto
  pub port : ℕ
  pub client_id : List ℕ
  pub state : ℕ
  pub source : Source

pub record BridgeEntry : Type 0 where
  pub label : List ℕ
  pub named : Bool
  pub transport : ℕ
  pub peer : List ℕ
  pub macs : List (List ℕ)
  pub rx_bytes : ℕ
  pub rx_frames : ℕ
  pub tx_bytes : ℕ
  pub tx_frames : ℕ
  pub uptime_secs : ℕ
  pub idle_secs : ℕ

pub record PairEntry : Type 0 where
  pub consumer_id : List ℕ
  pub provider_id : List ℕ
  pub want : ℕ
  pub path : Option PathStatus

pub record SnapshotBody : Type 0 where
  pub version : ℕ
  pub server_id : List ℕ
  pub listeners : List Listener
  pub clients : List ClientEntry
  pub routes : List RouteEntry
  pub bridge_clients : List BridgeEntry
  pub pairs : List PairEntry

abbrev pub proto_byte : Proto → ℕ
proto_byte tcp = 1
proto_byte udp = 2

abbrev pub source_byte : Source → ℕ
source_byte file = 0
source_byte cli = 1
source_byte runtime = 2

abbrev pub peer_status_byte : PeerStatus → ℕ
peer_status_byte accepted = 0
peer_status_byte unknown_peer = 1
peer_status_byte peer_offline = 2
peer_status_byte not_provided = 3
peer_status_byte peer_busy = 4
peer_status_byte server_failure = 5

abbrev pub refuse_reason_byte : PeerRefuseReason → ℕ
refuse_reason_byte malformed_identity = 0
refuse_reason_byte failed_proof = 1
refuse_reason_byte challenge_failed = 2
refuse_reason_byte identity_claimed = 3

abbrev pub path_status_byte : PathStatus → ℕ
path_status_byte direct = 0
path_status_byte relay = 1

abbrev pub settled_path_byte : Option PathStatus → ℕ
settled_path_byte none = 0
settled_path_byte (some direct) = 1
settled_path_byte (some relay) = 2
