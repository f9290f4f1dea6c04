-- ===== src/Admission/HeaderLaws.antt =====
-- What the length field of a PROXY protocol header counts.
use zeronat.Base.{
  ℕ, ◌+◌, ◌≡◌, List, [], ◌∷◌, ◌++◌, length, get_or, be16, be32, u16_be, refl, arith, length-append,
  Bool-cases, inl, inr, beq_bytes, take,
}
use zeronat.Proto.Types.{IpAddr, v4, v6, SocketAddr}
use zeronat.Admission.ProxyHeader.{
  normalize_ip, normalize, as_v6, address_block, encode_v2, signature, mapped_prefix,
}

-- An address of version 6 has 16 bytes.
abbrev pub Sized : IpAddr → Type 0
Sized (v4 ip) = Unit
Sized (v6 b) = length b ≡ 16

-- The length that a header claims for what is behind its sixteenth byte.
abbrev pub claimed_length : List ℕ → ℕ
claimed_length header = u16_be (get_or header 14 0) (get_or header 15 0)

normalize_ip-Sized : (ip : IpAddr) → Sized ip → Sized (normalize_ip ip)
unfolding normalize_ip
normalize_ip-Sized (v4 ip) h = tt
normalize_ip-Sized (v6 b) h = elim (Bool-cases (beq_bytes (take 12 b) mapped_prefix)) [
  | inl e ↦ rw e tt
  | inr e ↦ rw e h
]

as_v6-Sized : (ip : IpAddr) → Sized ip → length (as_v6 ip) ≡ 16
unfolding as_v6
as_v6-Sized (v4 ip) h = refl
as_v6-Sized (v6 b) h = h

length-blocks :
    (a b p q : List ℕ)
    → length a ≡ 16
    → length b ≡ 16
    → length p ≡ 2
    → length q ≡ 2
    → length (((a ++ b) ++ p) ++ q) ≡ 36
length-blocks a b p q h k l m = omega (
  arith,
  length-append ((a ++ b) ++ p) q,
  length-append (a ++ b) p,
  length-append a b,
  h,
  k,
  l,
  m,
)

abbrev header : IpAddr → IpAddr → List ℕ → List ℕ → List ℕ
header src dst p q = (((signature ++ (0x21 ∷ [])) ++ address_block src dst) ++ p) ++ q

header_counts :
    (src dst : IpAddr) (p q : List ℕ)
    → Sized src
    → Sized dst
    → length p ≡ 2
    → length q ≡ 2
    → length (header src dst p q) ≡ 16 + claimed_length (header src dst p q)
unfolding address_block
header_counts (v4 src) (v4 dst) p q h k l m =
    omega (arith, length-append (be32 dst ++ p) q, length-append (be32 dst) p, l, m)
header_counts (v4 src) (v6 dst) p q h k l m =
    omega (arith, length-blocks (as_v6 (v4 src)) dst p q (as_v6-Sized (v4 src) tt) k l m)
header_counts (v6 src) dst p q h k l m =
    omega (arith, length-blocks src (as_v6 dst) p q h (as_v6-Sized dst k) l m)

-- When an address of version 6 has sixteen bytes, the length field of the header of a connection counts
-- what is behind it: the header has as many bytes as it says and sixteen more.
pub encode_v2-claimed_length :
    (peer local : SocketAddr)
    → Sized peer.ip
    → Sized local.ip
    → length (encode_v2 peer local) ≡ 16 + claimed_length (encode_v2 peer local)
unfolding encode_v2 normalize
encode_v2-claimed_length peer local h k =
    header_counts (normalize_ip peer.ip) (normalize_ip local.ip) (be16 peer.port) (be16 local.port)
      (normalize_ip-Sized peer.ip h) (normalize_ip-Sized local.ip k) refl refl
