-- ===== src/Proto/Arms.antt =====
-- src/proto.rs: the arms of `Msg::decode`.
use Prim.Native.String.{String}
use zeronat.Base.{ℕ, Option, some, List, ◌==◌, ◌&&◌, not, if◌then◌else◌, length}
use zeronat.Proto.Msg.{
  Msg, open_stream, data_stream, client_hello, client_hello_ack, admin_hello, snapshot, set_route,
  mutation_result, fwd_options, open_proxy, peer_announce, peer_announce_ack, peer_challenge,
  peer_proof, peer_announce_refuse, peer_connect, peer_result, peer_probe, peer_info,
  peer_relay_open, peer_path,
}
use zeronat.Proto.Reader.{
  message, Reader, ◌>>=◌, ◌>>◌, ret, is_ok, need, at_end, get_u8, get_u16, get_u64, flag, get_proto,
}
use zeronat.Proto.Parts.{
  get_str, get_ip, arr32, get_sockaddr, take_fwd_entries, provides, want, read_each, take_target,
  take_client_credential, get_peer_status, get_refuse_reason, get_path_status,
}
use zeronat.Proto.Snapshot.{get_snapshot}
use zeronat.Proto.Types.{Proto}

unfoldable pub read_open : Reader Msg
read_open = do
  proto ← get_proto
  port ← get_u16
  id ← get_u64
  capability ← arr32 "capability"
  ret (open_stream proto port id capability)

unfoldable pub read_data : Reader Msg
read_data = do
  version ← get_u8
  id ← get_u64
  capability ← arr32 "capability"
  ret (data_stream version id capability)

unfoldable pub read_client_hello : Reader Msg
read_client_hello = do
  need 1 "truncated client hello"
  version ← get_u8
  client_id ← get_str
  at_end "trailing bytes in client hello"
  ret (client_hello version client_id)

-- `b[1]` and `b[2]` of a body of three bytes.
unfoldable pub read_admin_hello : Reader Msg
read_admin_hello = do version ← get_u8; mode ← get_u8; ret (admin_hello version mode)

unfoldable pub read_snapshot : Reader Msg
read_snapshot = do snap ← get_snapshot; ret (snapshot snap)

unfoldable pub read_target : (ℕ → Proto → ℕ → Msg) → Reader Msg
read_target build = do (bind_ip, proto, port) ← take_target; ret (build bind_ip proto port)

unfoldable pub read_set_route : Reader Msg
read_set_route = do
  bind_ip ← get_ip
  need 3 "truncated set route"
  proto ← get_proto
  port ← get_u16
  client_id ← get_str
  at_end "trailing bytes in set route"
  ret (set_route bind_ip proto port client_id)

unfoldable pub read_mutation_result : Reader Msg
read_mutation_result = do
  need 1 "truncated mutation result"
  ok ← flag "unknown mutation result ok"
  msg ← get_str
  at_end "trailing bytes in mutation result"
  ret (mutation_result ok msg)

unfoldable pub read_fwd_options : Reader Msg
read_fwd_options = do
  entries ← take_fwd_entries
  at_end "trailing bytes in forward options"
  ret (fwd_options entries)

unfoldable pub read_open_proxy : Reader Msg
read_open_proxy = do
  need 42 "truncated proxy open"
  port ← get_u16
  id ← get_u64
  capability ← arr32 "capability"
  peer ← get_sockaddr
  local ← get_sockaddr
  at_end "trailing bytes in proxy open"
  ret (open_proxy port id capability peer local)

unfoldable pub read_peer_announce : Reader Msg
read_peer_announce = do
  bits ← provides
  identity ← arr32 "peer identity"
  ret (peer_announce bits identity)

unfoldable pub read_peer_announce_ack : Reader Msg
read_peer_announce_ack = do
  observed ← get_sockaddr
  at_end "trailing bytes in peer announce ack"
  ret (peer_announce_ack observed)

unfoldable pub read_peer_connect : Reader Msg
read_peer_connect = do peer_id ← arr32 "peer identity"; bit ← want; ret (peer_connect peer_id bit)

unfoldable pub read_peer_result : Reader Msg
read_peer_result = do
  peer_id ← arr32 "peer identity"
  bit ← want
  pair_id ← get_u64
  status ← get_peer_status
  ret (peer_result peer_id bit pair_id status)

unfoldable pub read_peer_probe : Reader Msg
read_peer_probe = do
  pair_id ← get_u64
  peer_id ← arr32 "peer identity"
  probe_id ← get_u64
  probe_capability ← arr32 "capability"
  challenge ← arr32 "pair challenge"
  bit ← want
  ret (peer_probe pair_id peer_id probe_id probe_capability challenge bit)

unfoldable pub read_peer_info : Reader Msg
read_peer_info = do
  need 10 "truncated peer info"
  pair_id ← get_u64
  count ← get_u16
  candidates ← read_each count get_sockaddr
  at_end "trailing bytes in peer info"
  ret (peer_info pair_id candidates)

unfoldable pub read_peer_relay_open : Reader Msg
read_peer_relay_open = do
  pair_id ← get_u64
  id ← get_u64
  capability ← arr32 "capability"
  ret (peer_relay_open pair_id id capability)

unfoldable pub read_peer_path : Reader Msg
read_peer_path = do pair_id ← get_u64; status ← get_path_status; ret (peer_path pair_id status)

-- `if r.ok() && r.at + CAPABILITY_LEN != b.len() { r.fail_msg(..) }`
unfoldable pub exactly_32 : Reader (Unit {0})
exactly_32 r = (
  tt,
  if is_ok r && not (length r.rest == 32)
      then record r { err = some (message "invalid client hello ack capability") }
      else r,
)

unfoldable pub read_client_hello_ack : Reader Msg
read_client_hello_ack = do
  client_id ← get_str
  exactly_32
  bridge_capability ← arr32 "capability"
  ret (client_hello_ack client_id bridge_capability)

unfoldable pub read_peer_challenge : Reader Msg
read_peer_challenge = do
  eph_pub ← arr32 "challenge ephemeral"
  nonce ← arr32 "challenge nonce"
  ret (peer_challenge eph_pub nonce)

unfoldable pub read_peer_proof : Reader Msg
read_peer_proof = do mac ← arr32 "announce proof"; ret (peer_proof mac)

unfoldable pub read_refuse : Reader Msg
read_refuse = do reason ← get_refuse_reason; ret (peer_announce_refuse reason)

unfoldable pub read_credential : (List ℕ → Option (List ℕ) → Msg) → Reader Msg
read_credential build = do
  (client_id, secret) ← take_client_credential
  ret (build client_id secret)

unfoldable pub read_client_id : String → (List ℕ → Msg) → Reader Msg
read_client_id what build = do client_id ← get_str; at_end what; ret (build client_id)
