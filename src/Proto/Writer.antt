-- ===== src/Proto/Writer.antt =====
-- src/proto.rs: the writers, which append to a body. Conversions to a narrower integer wrap.
use zeronat.Base.{
  ℕ, ◌/◌, ◌%◌, ◌^◌, Bool, true, false, Option, none, some, List, [], ◌∷◌, ◌++◌, length, take, min,
  be16, be32,
}
use zeronat.Proto.Types.{Proto, proto_byte, IpAddr, v4, v6, SocketAddr, FwdOptionEntry}

abbrev pub be64 : ℕ → List ℕ
be64 v = be32 (v / 2 ^ 32) ++ be32 (v % 2 ^ 32)

abbrev pub bool_u8 : Bool → ℕ
bool_u8 true = 1
bool_u8 false = 0

unfoldable pub put_u8 : List ℕ → ℕ → List ℕ
put_u8 b v = b ++ (v ∷ [])

unfoldable pub put_u16 : List ℕ → ℕ → List ℕ
put_u16 b v = b ++ be16 v

unfoldable pub put_u32 : List ℕ → ℕ → List ℕ
put_u32 b v = b ++ be32 v

unfoldable pub put_u64 : List ℕ → ℕ → List ℕ
put_u64 b v = b ++ be64 v

unfoldable pub put_bytes : List ℕ → List ℕ → List ℕ
put_bytes b s = b ++ s

unfoldable pub tagged : ℕ → List ℕ
tagged tag = tag ∷ []

-- The body with the count, and the number of entries to encode.
unfoldable pub put_count : List ℕ → ℕ → List ℕ × ℕ
unfolding put_u16
put_count b len = let count = min len 65535 in (put_u16 b count, count)

unfoldable pub put_str : List ℕ → List ℕ → List ℕ
unfolding put_u16
put_str b s = put_u16 b (length s % 65536) ++ s

-- `for x in &xs[..count] { ... }` over a writer of one entry.
unfoldable pub put_each : {A : Type 0} → (List ℕ → A → List ℕ) → List ℕ → List A → List ℕ
put_each put b [] = b
put_each put b (x ∷ xs) = put_each put (put b x) xs

-- A capped count and that many entries.
unfoldable pub put_list : {A : Type 0} → (List ℕ → A → List ℕ) → List ℕ → List A → List ℕ
unfolding put_count put_each
put_list put b xs = let (b', count) = put_count b (length xs) in put_each put b' (take count xs)

unfoldable pub put_ip : List ℕ → ℕ → List ℕ
unfolding put_u32
put_ip b ip = put_u32 b ip

unfoldable pub put_ip_addr : List ℕ → IpAddr → List ℕ
unfolding put_u8 put_ip put_bytes
put_ip_addr b (v4 ip) = put_ip (put_u8 b 4) ip
put_ip_addr b (v6 octets) = put_bytes (put_u8 b 6) octets

unfoldable pub put_sockaddr : List ℕ → SocketAddr → List ℕ
unfolding put_ip_addr put_u16
put_sockaddr b a = put_u16 (put_ip_addr b a.ip) a.port

unfoldable pub put_fwd_entry : List ℕ → FwdOptionEntry → List ℕ
unfolding put_u8 put_u16 put_u32
put_fwd_entry b e =
    put_u32 (put_u8 (put_u16 (put_u8 b (proto_byte e.proto)) e.port) (bool_u8 e.proxy)) e.idle_secs

unfoldable pub put_fwd_entries : List ℕ → List FwdOptionEntry → List ℕ
unfolding put_list put_fwd_entry
put_fwd_entries b entries = put_list put_fwd_entry b entries

unfoldable pub put_target : List ℕ → ℕ → Proto → ℕ → List ℕ
unfolding put_ip put_u8 put_u16
put_target b bind_ip proto port = put_u16 (put_u8 (put_ip b bind_ip) (proto_byte proto)) port

unfoldable pub put_secret : List ℕ → Option (List ℕ) → List ℕ
unfolding put_bytes
put_secret b none = b
put_secret b (some secret) = put_bytes b secret

abbrev pub is_some : Option (List ℕ) → Bool
is_some none = false
is_some (some x) = true

unfoldable pub client_credential : ℕ → List ℕ → Option (List ℕ) → List ℕ
unfolding tagged put_str put_u8 put_secret
client_credential tag client_id secret =
    put_secret (put_u8 (put_str (tagged tag) client_id) (bool_u8 (is_some secret))) secret
