-- ===== src/Admission/ProxyHeader.antt =====
-- src/proxyproto.rs: the PROXY protocol header in front of a forwarded connection.
use zeronat.Base.{
  ℕ, List, [], ◌∷◌, ◌++◌, if◌then◌else◌, take, get_or, replicate, beq_bytes, be16, be32, u32_be,
}
use zeronat.Proto.Types.{IpAddr, v4, v6, SocketAddr}

abbrev pub signature : List ℕ
signature = 0x0D ∷ 0x0A ∷ 0x0D ∷ 0x0A ∷ 0x00 ∷ 0x0D ∷ 0x0A ∷ 0x51 ∷ 0x55 ∷ 0x49 ∷ 0x54 ∷ 0x0A ∷ []

abbrev pub mapped_prefix : List ℕ
mapped_prefix = replicate 10 0 ++ (255 ∷ 255 ∷ [])

-- `to_ipv4_mapped` of an address that has it
unfoldable pub normalize_ip : IpAddr → IpAddr
normalize_ip (v4 ip) = v4 ip
normalize_ip (v6 b) =
    if beq_bytes (take 12 b) mapped_prefix
    then v4 (u32_be (get_or b 12 0) (get_or b 13 0) (get_or b 14 0) (get_or b 15 0))
    else v6 b

unfoldable pub normalize : SocketAddr → SocketAddr
normalize a = record a { ip = normalize_ip a.ip }

unfoldable pub as_v6 : IpAddr → List ℕ
as_v6 (v4 ip) = mapped_prefix ++ be32 ip
as_v6 (v6 b) = b

-- The family, the length and the addresses.
unfoldable pub address_block : IpAddr → IpAddr → List ℕ
address_block (v4 src) (v4 dst) = (((0x11 ∷ []) ++ be16 12) ++ be32 src) ++ be32 dst
address_block (v4 src) (v6 dst) = (((0x21 ∷ []) ++ be16 36) ++ as_v6 (v4 src)) ++ dst
address_block (v6 src) dst = (((0x21 ∷ []) ++ be16 36) ++ src) ++ as_v6 dst

unfoldable pub encode_v2 : SocketAddr → SocketAddr → List ℕ
encode_v2 peer local =
    let from = normalize peer in
    let to = normalize local in
    (((signature ++ (0x21 ∷ [])) ++ address_block from.ip to.ip) ++ be16 from.port) ++ be16 to.port
