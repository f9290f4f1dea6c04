-- ===== src/Proto/ClientTrip.antt =====
-- The messages of clients and streams are decoded from what they are encoded to.
use zeronat.Base.{ℕ, ◌≡◌, inr, List, [], ◌∷◌, ◌++◌, be16, arith, length-append, append_assoc}
use zeronat.Proto.Types.{Proto, SocketAddr, FwdOptionEntry}
use zeronat.Proto.Writer.{
  tagged, put_u8, put_u16, put_u64, put_bytes, put_target, put_sockaddr, be64,
}
use zeronat.Proto.Encoded.{
  IsU16, IsU64, IsArray, IsStr, IsAddr, IsList, IsFwd, str_bytes, addr_bytes, put_str-bytes,
  put_sockaddr-bytes, put_fwd_entries-bytes,
}
use zeronat.Proto.Msg.{
  Msg, open_stream, data_stream, client_hello, client_hello_ack, fwd_options, open_proxy, encode,
}
use zeronat.Proto.Arms.{
  read_open, read_data, read_client_hello, read_fwd_options, read_open_proxy, read_client_hello_ack,
  exactly_32,
}
use zeronat.Proto.Decode.{read_client_msg, read_admin_msg, read_msg, decode}
use zeronat.Proto.Reads.{get_u8-Reads, get_u16-Reads, get_u64-Reads, get_proto-Reads}
use zeronat.Proto.PartReads.{get_str-Reads, arr32-Reads, get_sockaddr-Reads, take_fwd_entries-Reads}
use zeronat.Proto.Ends.{
  Ends, Ends-ret, Ends-bind, Ends-last, Ends-need, Ends-at_end, when_len-Ends, decode-Ends,
}
use zeronat.Proto.Reader.{◌>>◌, Reader}

exactly_32-Ends :
    {k : Reader Msg} {v : Msg} (s : List ℕ) → IsArray 32 s → Ends k s v → Ends (exactly_32 >> k) s v
unfolding ◌>>◌ exactly_32
exactly_32-Ends s h e = record { runs = ground (arith, e.runs) }

pub open_stream-decoded :
    (proto : Proto) (port : ℕ) (id : ℕ) (capability : List ℕ)
    → IsU16 port
    → IsU64 id
    → IsArray 32 capability
    → decode (encode (open_stream proto port id capability))
      ≡ inr (open_stream proto port id capability)
unfolding encode tagged put_u8 put_u16 put_u64 put_bytes put_target read_msg read_admin_msg
    read_client_msg read_open
open_stream-decoded proto port id capability hp hi hc = decode-Ends 2 (
    when_len-Ends (omega arith) (
      Ends-bind _ (get_proto-Reads proto) (
        Ends-bind _ (get_u16-Reads port hp) (
          Ends-bind _ (get_u64-Reads id hi) (
            Ends-last _ (arr32-Reads _ capability hc)
              (Ends-ret (open_stream proto port id capability)))))))

pub data_stream-decoded :
    (version : ℕ) (id : ℕ) (capability : List ℕ)
    → IsU64 id
    → IsArray 32 capability
    → decode (encode (data_stream version id capability)) ≡ inr (data_stream version id capability)
unfolding encode tagged put_u8 put_u16 put_u64 put_bytes put_target read_msg read_admin_msg
    read_client_msg read_data
data_stream-decoded version id capability hi hc = decode-Ends 3 (
    when_len-Ends (omega arith) (
      Ends-bind _ (get_u8-Reads version) (
        Ends-bind _ (get_u64-Reads id hi) (
          Ends-last _ (arr32-Reads _ capability hc)
            (Ends-ret (data_stream version id capability))))))

pub client_hello-decoded :
    (version : ℕ) (client_id : List ℕ)
    → IsStr client_id
    → decode (encode (client_hello version client_id)) ≡ inr (client_hello version client_id)
unfolding encode tagged put_u8 put_u16 put_u64 put_bytes put_target read_msg read_admin_msg
    read_client_msg read_client_hello
client_hello-decoded version client_id h = rw (put_str-bytes (5 ∷ version ∷ []) client_id h.0) (
    decode-Ends 5 (
      Ends-need _ (omega arith) (
        Ends-bind _ (get_u8-Reads version) (
          Ends-last _ (get_str-Reads client_id h)
            (Ends-at_end _ (Ends-ret (client_hello version client_id)))))))

pub fwd_options-decoded :
    (entries : List FwdOptionEntry)
    → IsList IsFwd entries
    → decode (encode (fwd_options entries)) ≡ inr (fwd_options entries)
unfolding encode tagged put_u8 put_u16 put_u64 put_bytes put_target read_msg read_admin_msg
    read_client_msg read_fwd_options
fwd_options-decoded entries h = rw (put_fwd_entries-bytes (13 ∷ []) entries h) (
    decode-Ends 13 (
      Ends-last _ (take_fwd_entries-Reads entries h)
        (Ends-at_end _ (Ends-ret (fwd_options entries)))))

pub open_proxy-decoded :
    (port : ℕ) (id : ℕ) (capability : List ℕ) (peer : SocketAddr) (local : SocketAddr)
    → IsU16 port
    → IsU64 id
    → IsArray 32 capability
    → IsAddr peer
    → IsAddr local
    → decode (encode (open_proxy port id capability peer local))
      ≡ inr (open_proxy port id capability peer local)
unfolding encode tagged put_u8 put_u16 put_u64 put_bytes put_target read_msg read_admin_msg
    read_client_msg read_open_proxy
open_proxy-decoded port id capability peer local hp hi hc ha hl =
    rw
      (put_sockaddr-bytes (put_sockaddr (((15 ∷ []) ++ be16 port ++ be64 id) ++ capability) peer)
        local)
      (rw (put_sockaddr-bytes (((15 ∷ []) ++ be16 port ++ be64 id) ++ capability) peer) (
        rw
          (append_assoc (((15 ∷ []) ++ be16 port ++ be64 id) ++ capability) (addr_bytes peer)
            (addr_bytes local))
          (rw
            (append_assoc ((15 ∷ []) ++ be16 port ++ be64 id) capability
              (addr_bytes peer ++ addr_bytes local))
            (decode-Ends 15 (
              Ends-need _
                (omega (arith, length-append capability (addr_bytes peer ++ addr_bytes local)))
                (Ends-bind _ (get_u16-Reads port hp) (
                  Ends-bind _ (get_u64-Reads id hi) (
                    Ends-bind _ (arr32-Reads _ capability hc) (
                      Ends-bind _ (get_sockaddr-Reads peer ha) (
                        Ends-last _ (get_sockaddr-Reads local hl) (
                          Ends-at_end _
                            (Ends-ret (open_proxy port id capability peer local)))))))))))))

pub client_hello_ack-decoded :
    (client_id : List ℕ) (capability : List ℕ)
    → IsStr client_id
    → IsArray 32 capability
    → decode (encode (client_hello_ack client_id capability))
      ≡ inr (client_hello_ack client_id capability)
unfolding encode tagged put_u8 put_u16 put_u64 put_bytes put_target read_msg read_admin_msg
    read_client_msg read_client_hello_ack exactly_32 ◌>>◌
client_hello_ack-decoded client_id capability h hc = rw (put_str-bytes (24 ∷ []) client_id h.0) (
    rw (append_assoc (24 ∷ []) (str_bytes client_id) capability) (
      decode-Ends 24 (
        Ends-bind _ (get_str-Reads client_id h) (
          exactly_32-Ends capability hc (
            Ends-last _ (arr32-Reads _ capability hc)
              (Ends-ret (client_hello_ack client_id capability)))))))
