-- ===== src/Proto/PeerTrip.antt =====
-- The messages between peers and the server are decoded from what they are encoded to.
use zeronat.Base.{
  ℕ, ◌≡◌, inr, refl, List, [], ◌∷◌, ◌++◌, length, arith, length-append, append_assoc,
}
use zeronat.Proto.Types.{SocketAddr, PeerRefuseReason, PeerStatus, PathStatus, peer_status_byte}
use zeronat.Proto.Writer.{
  tagged, put_u8, put_u16, put_u64, put_bytes, put_target, put_sockaddr, be64,
}
use zeronat.Proto.Encoded.{
  IsU64, IsArray, IsWant, IsProvides, IsAddr, IsList, addr_bytes, put_sockaddr-bytes,
  put_list-bytes,
}
use zeronat.Proto.Msg.{
  peer_announce, peer_announce_ack, peer_challenge, peer_proof, peer_announce_refuse, peer_connect,
  peer_result, peer_probe, peer_info, peer_relay_open, peer_path, encode,
}
use zeronat.Proto.Arms.{
  read_peer_announce, read_peer_announce_ack, read_peer_connect, read_peer_result, read_peer_probe,
  read_peer_info, read_peer_relay_open, read_peer_path, read_peer_challenge, read_peer_proof,
  read_refuse,
}
use zeronat.Proto.Decode.{read_client_msg, read_admin_msg, read_msg, decode}
use zeronat.Proto.Reads.{get_u16-Reads, get_u64-Reads}
use zeronat.Proto.PartReads.{
  arr32-Reads, get_sockaddr-Reads, want-Reads, provides-Reads, read_each-Reads,
}
use zeronat.Proto.Ends.{
  Ends-ret, Ends-bind, Ends-last, Ends-need, Ends-at_end, when_len-Ends, decode-Ends,
}
use zeronat.Proto.ArmReads.{get_peer_status-Reads, get_refuse_reason-Reads, get_path_status-Reads}
use zeronat.Proto.Parts.{get_sockaddr}

pub peer_announce-decoded :
    (bits : ℕ) (identity : List ℕ)
    → IsProvides bits
    → IsArray 32 identity
    → decode (encode (peer_announce bits identity)) ≡ inr (peer_announce bits identity)
unfolding encode tagged put_u8 put_u16 put_u64 put_bytes put_target read_msg read_admin_msg
    read_client_msg read_peer_announce
peer_announce-decoded bits identity hb h = decode-Ends 16 (
    when_len-Ends (omega arith) (
      Ends-bind _ (provides-Reads bits hb)
        (Ends-last _ (arr32-Reads _ identity h) (Ends-ret (peer_announce bits identity)))))

pub peer_announce_ack-decoded :
    (observed : SocketAddr)
    → IsAddr observed
    → decode (encode (peer_announce_ack observed)) ≡ inr (peer_announce_ack observed)
unfolding encode tagged put_u8 put_u16 put_u64 put_bytes put_target read_msg read_admin_msg
    read_client_msg read_peer_announce_ack
peer_announce_ack-decoded observed h = rw (put_sockaddr-bytes (17 ∷ []) observed) (
    decode-Ends 17 (
      Ends-last _ (get_sockaddr-Reads observed h)
        (Ends-at_end _ (Ends-ret (peer_announce_ack observed)))))

pub peer_challenge-decoded :
    (eph_pub : List ℕ) (nonce : List ℕ)
    → IsArray 32 eph_pub
    → IsArray 32 nonce
    → decode (encode (peer_challenge eph_pub nonce)) ≡ inr (peer_challenge eph_pub nonce)
unfolding encode tagged put_u8 put_u16 put_u64 put_bytes put_target read_msg read_admin_msg
    read_client_msg read_peer_challenge
peer_challenge-decoded eph_pub nonce he hn = decode-Ends 25 (
    when_len-Ends (omega (arith, length-append eph_pub nonce)) (
      Ends-bind _ (arr32-Reads _ eph_pub he)
        (Ends-last _ (arr32-Reads _ nonce hn) (Ends-ret (peer_challenge eph_pub nonce)))))

pub peer_proof-decoded :
    (mac : List ℕ) → IsArray 32 mac → decode (encode (peer_proof mac)) ≡ inr (peer_proof mac)
unfolding encode tagged put_u8 put_u16 put_u64 put_bytes put_target read_msg read_admin_msg
    read_client_msg read_peer_proof
peer_proof-decoded mac h =
    decode-Ends 26
      (when_len-Ends (omega arith) (Ends-last _ (arr32-Reads _ mac h) (Ends-ret (peer_proof mac))))

pub peer_announce_refuse-decoded :
    (reason : PeerRefuseReason)
    → decode (encode (peer_announce_refuse reason)) ≡ inr (peer_announce_refuse reason)
unfolding encode tagged put_u8 put_u16 put_u64 put_bytes put_target read_msg read_admin_msg
    read_client_msg read_refuse
peer_announce_refuse-decoded reason = decode-Ends 27 (
    when_len-Ends (refl)
      (Ends-last _ (get_refuse_reason-Reads reason) (Ends-ret (peer_announce_refuse reason))))

pub peer_connect-decoded :
    (peer_id : List ℕ) (bit : ℕ)
    → IsArray 32 peer_id
    → IsWant bit
    → decode (encode (peer_connect peer_id bit)) ≡ inr (peer_connect peer_id bit)
unfolding encode tagged put_u8 put_u16 put_u64 put_bytes put_target read_msg read_admin_msg
    read_client_msg read_peer_connect
peer_connect-decoded peer_id bit h hw = decode-Ends 18 (
    when_len-Ends (omega (arith, length-append peer_id (bit ∷ []))) (
      Ends-bind _ (arr32-Reads _ peer_id h)
        (Ends-last _ (want-Reads bit hw) (Ends-ret (peer_connect peer_id bit)))))

pub peer_result-decoded :
    (peer_id : List ℕ) (bit : ℕ) (pair_id : ℕ) (status : PeerStatus)
    → IsArray 32 peer_id
    → IsWant bit
    → IsU64 pair_id
    → decode (encode (peer_result peer_id bit pair_id status))
      ≡ inr (peer_result peer_id bit pair_id status)
unfolding encode tagged put_u8 put_u16 put_u64 put_bytes put_target read_msg read_admin_msg
    read_client_msg read_peer_result
peer_result-decoded peer_id bit pair_id status h hw hi =
    rw (append_assoc peer_id (bit ∷ []) (be64 pair_id)) (
      rw (append_assoc peer_id ((bit ∷ []) ++ be64 pair_id) (peer_status_byte status ∷ [])) (
        decode-Ends 19 (
          when_len-Ends
            (omega (
              arith,
              length-append peer_id
                  ((bit ∷ []) ++ (be64 pair_id ++ (peer_status_byte status ∷ []))),
            ))
            (Ends-bind _ (arr32-Reads _ peer_id h) (
              Ends-bind _ (want-Reads bit hw) (
                Ends-bind _ (get_u64-Reads pair_id hi) (
                  Ends-last _ (get_peer_status-Reads status)
                    (Ends-ret (peer_result peer_id bit pair_id status)))))))))

pub peer_probe-decoded :
    (pair_id : ℕ) (peer_id : List ℕ) (probe_id : ℕ) (capability : List ℕ) (challenge : List ℕ)
    (bit : ℕ)
    → IsU64 pair_id
    → IsArray 32 peer_id
    → IsU64 probe_id
    → IsArray 32 capability
    → IsArray 32 challenge
    → IsWant bit
    → decode (encode (peer_probe pair_id peer_id probe_id capability challenge bit))
      ≡ inr (peer_probe pair_id peer_id probe_id capability challenge bit)
unfolding encode tagged put_u8 put_u16 put_u64 put_bytes put_target read_msg read_admin_msg
    read_client_msg read_peer_probe
peer_probe-decoded pair_id peer_id probe_id capability challenge bit hi h hq hc hl hw =
    rw (append_assoc peer_id (be64 probe_id) capability) (
      rw (append_assoc peer_id (be64 probe_id ++ capability) challenge) (
        rw (append_assoc peer_id ((be64 probe_id ++ capability) ++ challenge) (bit ∷ [])) (
          rw (append_assoc capability challenge (bit ∷ [])) (
            decode-Ends 20 (
              when_len-Ends
                (omega (
                  arith,
                  length-append peer_id
                      (be64 probe_id ++ (capability ++ (challenge ++ (bit ∷ [])))),
                  length-append capability (challenge ++ (bit ∷ [])),
                  length-append challenge (bit ∷ []),
                ))
                (Ends-bind _ (get_u64-Reads pair_id hi) (
                  Ends-bind _ (arr32-Reads _ peer_id h) (
                    Ends-bind _ (get_u64-Reads probe_id hq) (
                      Ends-bind _ (arr32-Reads _ capability hc) (
                        Ends-bind _ (arr32-Reads _ challenge hl) (
                          Ends-last _ (want-Reads bit hw) (
                            Ends-ret (
                              peer_probe pair_id peer_id probe_id capability challenge
                                bit)))))))))))))

pub peer_info-decoded :
    (pair_id : ℕ) (candidates : List SocketAddr)
    → IsU64 pair_id
    → IsList IsAddr candidates
    → decode (encode (peer_info pair_id candidates)) ≡ inr (peer_info pair_id candidates)
unfolding encode tagged put_u8 put_u16 put_u64 put_bytes put_target read_msg read_admin_msg
    read_client_msg read_peer_info
peer_info-decoded pair_id candidates hi h =
    rw
      (put_list-bytes IsAddr put_sockaddr addr_bytes (λ b a v. put_sockaddr-bytes b a)
        ((21 ∷ []) ++ be64 pair_id) candidates h)
      (decode-Ends 21 (
        Ends-need _ (omega arith) (
          Ends-bind _ (get_u64-Reads pair_id hi) (
            Ends-bind _ (get_u16-Reads (length candidates) h.0) (
              Ends-last _
                (read_each-Reads IsAddr get_sockaddr addr_bytes get_sockaddr-Reads candidates h.1)
                (Ends-at_end _ (Ends-ret (peer_info pair_id candidates))))))))

pub peer_relay_open-decoded :
    (pair_id : ℕ) (id : ℕ) (capability : List ℕ)
    → IsU64 pair_id
    → IsU64 id
    → IsArray 32 capability
    → decode (encode (peer_relay_open pair_id id capability))
      ≡ inr (peer_relay_open pair_id id capability)
unfolding encode tagged put_u8 put_u16 put_u64 put_bytes put_target read_msg read_admin_msg
    read_client_msg read_peer_relay_open
peer_relay_open-decoded pair_id id capability hp hi hc = decode-Ends 22 (
    when_len-Ends (omega arith) (
      Ends-bind _ (get_u64-Reads pair_id hp) (
        Ends-bind _ (get_u64-Reads id hi) (
          Ends-last _ (arr32-Reads _ capability hc)
            (Ends-ret (peer_relay_open pair_id id capability))))))

pub peer_path-decoded :
    (pair_id : ℕ) (status : PathStatus)
    → IsU64 pair_id
    → decode (encode (peer_path pair_id status)) ≡ inr (peer_path pair_id status)
unfolding encode tagged put_u8 put_u16 put_u64 put_bytes put_target read_msg read_admin_msg
    read_client_msg read_peer_path
peer_path-decoded pair_id status h = decode-Ends 23 (
    when_len-Ends (refl) (
      Ends-bind _ (get_u64-Reads pair_id h)
        (Ends-last _ (get_path_status-Reads status) (Ends-ret (peer_path pair_id status)))))
