-- ===== src/Proto/Tests.antt =====
-- Messages on which the theorems about src/proto.rs apply.
use zeronat.Proto.RoundTrip.{decode-encode}
use zeronat.Proto.Msg.{Msg, open_proxy, encode}
use zeronat.Proto.Decode.{decode}
use zeronat.Proto.Types.{SocketAddr, v4, v6}
use zeronat.Base.{refl, replicate, List, ◌^◌, ◌≡◌, ℕ, inr, arith}
use zeronat.Proto.Valid.{IsMsg}

abbrev cap : List ℕ
cap = replicate 32 7

abbrev peer_addr : SocketAddr
peer_addr = record { ip = v4 0xc0000201; port = 8080 }

abbrev local_addr : SocketAddr
local_addr = record { ip = v6 (replicate 16 1); port = 443 }

abbrev proxied : Msg
proxied = open_proxy 443 (2 ^ 40) cap peer_addr local_addr

decode-encode_example : decode (encode proxied) ≡ inr proxied
decode-encode_example = decode-encode proxied (
    unfold IsMsg in
    (omega arith, omega arith, refl, (omega arith, omega arith), (refl, omega arith)))
