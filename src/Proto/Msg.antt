-- ===== src/Proto/Msg.antt =====
-- src/proto.rs: the messages, `Msg::encode` and `Msg::decode`. Each `read_*` is one arm of
-- `decode`; an arm with a length guard that does not hold falls to the last arm, `read_malformed`.
use zeronat.Base.{ℕ, Bool, Option, List}
use zeronat.Proto.Types.{
  Proto, proto_byte, SocketAddr, FwdOptionEntry, SnapshotBody, PathStatus, path_status_byte,
  PeerStatus, peer_status_byte, PeerRefuseReason, refuse_reason_byte,
}
use zeronat.Proto.Writer.{
  bool_u8, put_u8, put_u16, put_u64, put_bytes, put_str, put_list, put_target, put_fwd_entries,
  tagged, put_sockaddr, client_credential,
}
use zeronat.Proto.Parts.{provides, want}
use zeronat.Proto.Snapshot.{put_snapshot}

pub data Msg : Type 0 where
  ping pong client_hello_refuse fwd_options_ack : Msg
  open_stream : (proto : Proto) (port id : ℕ) (capability : List ℕ) → Msg
  data_stream : (version id : ℕ) (capability : List ℕ) → Msg
  client_hello : (version : ℕ) (client_id : List ℕ) → Msg
  client_hello_ack : (client_id bridge_capability : List ℕ) → Msg
  admin_hello : (version mode : ℕ) → Msg
  snapshot : SnapshotBody → Msg
  add_listener : (bind_ip : ℕ) (proto : Proto) (port : ℕ) → Msg
  remove_listener : (bind_ip : ℕ) (proto : Proto) (port : ℕ) → Msg
  set_route : (bind_ip : ℕ) (proto : Proto) (port : ℕ) (client_id : List ℕ) → Msg
  clear_route : (bind_ip : ℕ) (proto : Proto) (port : ℕ) → Msg
  mutation_result : (ok : Bool) (msg : List ℕ) → Msg
  fwd_options : (entries : List FwdOptionEntry) → Msg
  open_proxy : (port id : ℕ) (capability : List ℕ) (peer local : SocketAddr) → Msg
  peer_announce : (provides : ℕ) (identity : List ℕ) → Msg
  peer_announce_ack : (observed : SocketAddr) → Msg
  peer_challenge : (eph_pub nonce : List ℕ) → Msg
  peer_proof : (mac : List ℕ) → Msg
  peer_announce_refuse : (reason : PeerRefuseReason) → Msg
  peer_connect : (peer_id : List ℕ) (want : ℕ) → Msg
  peer_result : (peer_id : List ℕ) (want pair_id : ℕ) (status : PeerStatus) → Msg
  peer_probe :
      (pair_id : ℕ) (peer_id : List ℕ) (probe_id : ℕ) (probe_capability challenge : List ℕ)
      (provides : ℕ)
      → Msg
  peer_info : (pair_id : ℕ) (candidates : List SocketAddr) → Msg
  peer_relay_open : (pair_id id : ℕ) (capability : List ℕ) → Msg
  peer_path : (pair_id : ℕ) (status : PathStatus) → Msg
  add_client set_client_secret : (client_id : List ℕ) (secret : Option (List ℕ)) → Msg
  remove_client disconnect_client : (client_id : List ℕ) → Msg

unfoldable pub encode : Msg → List ℕ
encode ping = tagged 1
encode (open_stream proto port id capability) =
    put_bytes (put_u64 (put_u16 (put_u8 (tagged 2) (proto_byte proto)) port) id) capability
encode (data_stream version id capability) =
    put_bytes (put_u64 (put_u8 (tagged 3) version) id) capability
encode pong = tagged 4
encode (client_hello version client_id) = put_str (put_u8 (tagged 5) version) client_id
encode (admin_hello version mode) = put_u8 (put_u8 (tagged 6) version) mode
encode (snapshot snap) = put_snapshot snap
encode (add_listener bind_ip proto port) = put_target (tagged 8) bind_ip proto port
encode (remove_listener bind_ip proto port) = put_target (tagged 9) bind_ip proto port
encode (set_route bind_ip proto port client_id) =
    put_str (put_target (tagged 10) bind_ip proto port) client_id
encode (clear_route bind_ip proto port) = put_target (tagged 11) bind_ip proto port
encode (mutation_result ok msg) = put_str (put_u8 (tagged 12) (bool_u8 ok)) msg
encode (fwd_options entries) = put_fwd_entries (tagged 13) entries
encode fwd_options_ack = tagged 14
encode (open_proxy port id capability peer local) =
    let b = put_bytes (put_u64 (put_u16 (tagged 15) port) id) capability in
    put_sockaddr (put_sockaddr b peer) local
encode (peer_announce provides identity) = put_bytes (put_u8 (tagged 16) provides) identity
encode (peer_announce_ack observed) = put_sockaddr (tagged 17) observed
encode (peer_challenge eph_pub nonce) = put_bytes (put_bytes (tagged 25) eph_pub) nonce
encode (peer_proof mac) = put_bytes (tagged 26) mac
encode (peer_announce_refuse reason) = put_u8 (tagged 27) (refuse_reason_byte reason)
encode (peer_connect peer_id want) = put_u8 (put_bytes (tagged 18) peer_id) want
encode (peer_result peer_id want pair_id status) =
    let b = put_u64 (put_u8 (put_bytes (tagged 19) peer_id) want) pair_id in
    put_u8 b (peer_status_byte status)
encode (peer_probe pair_id peer_id probe_id probe_capability challenge provides) =
    let b = put_u64 (put_bytes (put_u64 (tagged 20) pair_id) peer_id) probe_id in
    put_u8 (put_bytes (put_bytes b probe_capability) challenge) provides
encode (peer_info pair_id candidates) =
    put_list put_sockaddr (put_u64 (tagged 21) pair_id) candidates
encode (peer_relay_open pair_id id capability) =
    put_bytes (put_u64 (put_u64 (tagged 22) pair_id) id) capability
encode (peer_path pair_id status) = put_u8 (put_u64 (tagged 23) pair_id) (path_status_byte status)
encode (client_hello_ack client_id bridge_capability) =
    put_bytes (put_str (tagged 24) client_id) bridge_capability
encode client_hello_refuse = tagged 28
encode (add_client client_id secret) = client_credential 29 client_id secret
encode (set_client_secret client_id secret) = client_credential 30 client_id secret
encode (remove_client client_id) = put_str (tagged 31) client_id
encode (disconnect_client client_id) = put_str (tagged 32) client_id
