-- ===== src/Proto/Valid.antt =====
-- The messages of src/proto.rs that the encoding can carry.
use zeronat.Proto.Types.{SnapshotBody}
use zeronat.Proto.Encoded.{
  IsU16, IsU32, IsU64, IsArray, IsStr, IsWant, IsProvides, IsAddr, IsList, IsFwd,
}
use zeronat.Proto.Msg.{
  Msg, open_stream, data_stream, client_hello, client_hello_ack, snapshot, add_listener,
  remove_listener, set_route, clear_route, mutation_result, fwd_options, open_proxy, peer_announce,
  peer_announce_ack, peer_challenge, peer_proof, peer_connect, peer_result, peer_probe, peer_info,
  peer_relay_open, peer_path, add_client, set_client_secret, remove_client, disconnect_client,
}
use zeronat.Proto.ArmReads.{IsSecret}
use zeronat.Proto.SnapshotReads.{IsListener, IsClient, IsRoute, IsBridge, IsPair}

abbrev pub IsSnapshot : SnapshotBody → Type 0
IsSnapshot s =
    IsStr s.server_id
    × IsList IsListener s.listeners
    × IsList IsClient s.clients
    × IsList IsRoute s.routes
    × IsList IsBridge s.bridge_clients
    × IsList IsPair s.pairs

-- The messages whose fields fit their encoding: integers their width, arrays their length,
-- strings and lists a 16-bit count, capabilities the defined bits.
unfoldable pub IsMsg : Msg → Type 0
IsMsg (open_stream proto port id capability) = IsU16 port × IsU64 id × IsArray 32 capability
IsMsg (data_stream version id capability) = IsU64 id × IsArray 32 capability
IsMsg (client_hello version client_id) = IsStr client_id
IsMsg (client_hello_ack client_id capability) = IsStr client_id × IsArray 32 capability
IsMsg (snapshot snap) = IsSnapshot snap
IsMsg (add_listener bind_ip proto port) = IsU32 bind_ip × IsU16 port
IsMsg (remove_listener bind_ip proto port) = IsU32 bind_ip × IsU16 port
IsMsg (set_route bind_ip proto port client_id) = IsU32 bind_ip × IsU16 port × IsStr client_id
IsMsg (clear_route bind_ip proto port) = IsU32 bind_ip × IsU16 port
IsMsg (mutation_result ok msg) = IsStr msg
IsMsg (fwd_options entries) = IsList IsFwd entries
IsMsg (open_proxy port id capability peer local) =
    IsU16 port × IsU64 id × IsArray 32 capability × IsAddr peer × IsAddr local
IsMsg (peer_announce provides identity) = IsProvides provides × IsArray 32 identity
IsMsg (peer_announce_ack observed) = IsAddr observed
IsMsg (peer_challenge eph_pub nonce) = IsArray 32 eph_pub × IsArray 32 nonce
IsMsg (peer_proof mac) = IsArray 32 mac
IsMsg (peer_connect peer_id want) = IsArray 32 peer_id × IsWant want
IsMsg (peer_result peer_id want pair_id status) = IsArray 32 peer_id × IsWant want × IsU64 pair_id
IsMsg (peer_probe pair_id peer_id probe_id probe_capability challenge provides) =
    IsU64 pair_id
    × IsArray 32 peer_id
    × IsU64 probe_id
    × IsArray 32 probe_capability
    × IsArray 32 challenge
    × IsWant provides
IsMsg (peer_info pair_id candidates) = IsU64 pair_id × IsList IsAddr candidates
IsMsg (peer_relay_open pair_id id capability) = IsU64 pair_id × IsU64 id × IsArray 32 capability
IsMsg (peer_path pair_id status) = IsU64 pair_id
IsMsg (add_client client_id secret) = IsStr client_id × IsSecret secret
IsMsg (set_client_secret client_id secret) = IsStr client_id × IsSecret secret
IsMsg (remove_client client_id) = IsStr client_id
IsMsg (disconnect_client client_id) = IsStr client_id
IsMsg _ = Unit
