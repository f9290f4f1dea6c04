-- ===== src/Proto/RoundTrip.antt =====
-- src/proto.rs: a message that fits its encoding is decoded from what it is encoded to.
use zeronat.Base.{◌≡◌, inr, refl, []}
use zeronat.Proto.Types.{SocketAddr}
use zeronat.Proto.Writer.{tagged}
use zeronat.Proto.Encoded.{IsAddr, put_sockaddr-bytes}
use zeronat.Proto.Msg.{
  Msg, ping, pong, client_hello_refuse, fwd_options_ack, open_stream, data_stream, client_hello,
  client_hello_ack, admin_hello, snapshot, add_listener, remove_listener, set_route, clear_route,
  mutation_result, fwd_options, open_proxy, peer_announce, peer_announce_ack, peer_challenge,
  peer_proof, peer_announce_refuse, peer_connect, peer_result, peer_probe, peer_info,
  peer_relay_open, peer_path, add_client, set_client_secret, remove_client, disconnect_client,
  encode,
}
use zeronat.Proto.Decode.{
  read_client_msg, read_admin_msg, read_msg, decode, decode_sockaddr, encode_sockaddr,
}
use zeronat.Proto.PartReads.{get_sockaddr-Reads}
use zeronat.Proto.Ends.{Ends-ret, Ends-last, Ends-at_end, when_len-Ends, decode-Ends, finish-Ends}
use zeronat.Proto.Valid.{IsMsg}
use zeronat.Proto.ClientTrip.{
  open_stream-decoded, data_stream-decoded, client_hello-decoded, client_hello_ack-decoded,
  fwd_options-decoded, open_proxy-decoded,
}
use zeronat.Proto.AdminTrip.{
  admin_hello-decoded, add_listener-decoded, remove_listener-decoded, set_route-decoded,
  clear_route-decoded, mutation_result-decoded, add_client-decoded, set_client_secret-decoded,
  remove_client-decoded, disconnect_client-decoded,
}
use zeronat.Proto.SnapshotTrip.{snapshot-decoded}
use zeronat.Proto.PeerTrip.{
  peer_announce-decoded, peer_announce_ack-decoded, peer_challenge-decoded, peer_proof-decoded,
  peer_announce_refuse-decoded, peer_connect-decoded, peer_result-decoded, peer_probe-decoded,
  peer_info-decoded, peer_relay_open-decoded, peer_path-decoded,
}

-- Every message whose fields fit their encoding is decoded from the bytes it is encoded to.
pub decode-encode : (m : Msg) → IsMsg m → decode (encode m) ≡ inr m
unfolding IsMsg encode tagged read_msg read_admin_msg read_client_msg
decode-encode ping h = decode-Ends 1 (Ends-ret ping)
decode-encode pong h = decode-Ends 4 (Ends-ret pong)
decode-encode client_hello_refuse h =
    decode-Ends 28 (when_len-Ends refl (Ends-ret client_hello_refuse))
decode-encode fwd_options_ack h = decode-Ends 14 (when_len-Ends refl (Ends-ret fwd_options_ack))
decode-encode (open_stream proto port id capability) h =
    open_stream-decoded proto port id capability h.0 h.1 h.2
decode-encode (data_stream version id capability) h =
    data_stream-decoded version id capability h.0 h.1
decode-encode (client_hello version client_id) h = client_hello-decoded version client_id h
decode-encode (client_hello_ack client_id capability) h =
    client_hello_ack-decoded client_id capability h.0 h.1
decode-encode (admin_hello version mode) h = admin_hello-decoded version mode
decode-encode (snapshot s) h = snapshot-decoded s h
decode-encode (add_listener bind_ip proto port) h = add_listener-decoded bind_ip proto port h.0 h.1
decode-encode (remove_listener bind_ip proto port) h =
    remove_listener-decoded bind_ip proto port h.0 h.1
decode-encode (set_route bind_ip proto port client_id) h =
    set_route-decoded bind_ip proto port client_id h.0 h.1 h.2
decode-encode (clear_route bind_ip proto port) h = clear_route-decoded bind_ip proto port h.0 h.1
decode-encode (mutation_result ok msg) h = mutation_result-decoded ok msg h
decode-encode (fwd_options entries) h = fwd_options-decoded entries h
decode-encode (open_proxy port id capability peer local) h =
    open_proxy-decoded port id capability peer local h.0 h.1 h.2 h.3 h.4
decode-encode (peer_announce bits identity) h = peer_announce-decoded bits identity h.0 h.1
decode-encode (peer_announce_ack observed) h = peer_announce_ack-decoded observed h
decode-encode (peer_challenge eph_pub nonce) h = peer_challenge-decoded eph_pub nonce h.0 h.1
decode-encode (peer_proof mac) h = peer_proof-decoded mac h
decode-encode (peer_announce_refuse reason) h = peer_announce_refuse-decoded reason
decode-encode (peer_connect peer_id bit) h = peer_connect-decoded peer_id bit h.0 h.1
decode-encode (peer_result peer_id bit pair_id status) h =
    peer_result-decoded peer_id bit pair_id status h.0 h.1 h.2
decode-encode (peer_probe pair_id peer_id probe_id capability challenge bit) h =
    peer_probe-decoded pair_id peer_id probe_id capability challenge bit h.0 h.1 h.2 h.3 h.4 h.5
decode-encode (peer_info pair_id candidates) h = peer_info-decoded pair_id candidates h.0 h.1
decode-encode (peer_relay_open pair_id id capability) h =
    peer_relay_open-decoded pair_id id capability h.0 h.1 h.2
decode-encode (peer_path pair_id status) h = peer_path-decoded pair_id status h
decode-encode (add_client client_id secret) h = add_client-decoded client_id secret h.0 h.1
decode-encode (set_client_secret client_id secret) h =
    set_client_secret-decoded client_id secret h.0 h.1
decode-encode (remove_client client_id) h = remove_client-decoded client_id h
decode-encode (disconnect_client client_id) h = disconnect_client-decoded client_id h

-- A socket address whose parts fit is decoded from the standalone body it is encoded to.
pub decode_sockaddr-encode_sockaddr :
    (a : SocketAddr) → IsAddr a → decode_sockaddr (encode_sockaddr a) ≡ inr a
unfolding decode_sockaddr encode_sockaddr
decode_sockaddr-encode_sockaddr a h =
    rw (put_sockaddr-bytes [] a)
      (finish-Ends (Ends-last _ (get_sockaddr-Reads a h) (Ends-at_end _ (Ends-ret a))))
