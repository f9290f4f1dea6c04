-- ===== src/Proto/Encoded.antt =====
-- The bytes of each part of a message, the values that the encoding can carry, and that the
-- writers append exactly these bytes.
use zeronat.Base.{
  ℕ, ◌<◌, ◌^◌, ◌≡◌, ◌⊎◌, sym, ap, ◌∙◌, true, List, [], ◌∷◌, ◌++◌, length, min, be16, be32, All,
  arith, append_assoc, append-nil, take_all,
}
use zeronat.Proto.Types.{Proto, proto_byte, IpAddr, v4, v6, SocketAddr, FwdOptionEntry}
use zeronat.Proto.Writer.{
  bool_u8, put_str, put_each, put_list, put_ip_addr, put_sockaddr, put_fwd_entry, put_fwd_entries,
  put_target,
}
use zeronat.Proto.Utf8.{is_utf8}

abbrev pub IsU16 : ℕ → Type 0
IsU16 v = v < 65536

abbrev pub IsU32 : ℕ → Type 0
IsU32 v = v < 2 ^ 32

abbrev pub IsU64 : ℕ → Type 0
IsU64 v = v < 2 ^ 64

abbrev pub IsArray : ℕ → List ℕ → Type 0
IsArray n s = length s ≡ n

abbrev pub IsStr : List ℕ → Type 0
IsStr s = (length s < 65536) × (is_utf8 s ≡ true)

-- One capability bit, and a set of capability bits.
abbrev pub IsWant : ℕ → Type 0
IsWant w = (w ≡ 1) ⊎ (w ≡ 2)

abbrev pub IsProvides : ℕ → Type 0
IsProvides n = n < 4

abbrev pub IsIp : IpAddr → Type 0
IsIp (v4 ip) = IsU32 ip
IsIp (v6 octets) = IsArray 16 octets

abbrev pub IsAddr : SocketAddr → Type 0
IsAddr a = IsIp a.ip × IsU16 a.port

abbrev pub IsList : {A : Type 0} → (A → Type 0) → List A → Type 0
IsList Valid xs = (length xs < 65536) × All Valid xs

abbrev pub str_bytes : List ℕ → List ℕ
str_bytes s = be16 (length s) ++ s

abbrev pub ip_bytes : IpAddr → List ℕ
ip_bytes (v4 ip) = 4 ∷ be32 ip
ip_bytes (v6 octets) = 6 ∷ octets

abbrev pub addr_bytes : SocketAddr → List ℕ
addr_bytes a = ip_bytes a.ip ++ be16 a.port

abbrev pub each_bytes : {A : Type 0} → (A → List ℕ) → List A → List ℕ
each_bytes bytes [] = []
each_bytes bytes (x ∷ xs) = bytes x ++ each_bytes bytes xs

abbrev pub list_bytes : {A : Type 0} → (A → List ℕ) → List A → List ℕ
list_bytes bytes xs = be16 (length xs) ++ each_bytes bytes xs

abbrev pub fwd_bytes : FwdOptionEntry → List ℕ
fwd_bytes e =
    (proto_byte e.proto ∷ []) ++ (be16 e.port ++ ((bool_u8 e.proxy ∷ []) ++ be32 e.idle_secs))

abbrev pub IsFwd : FwdOptionEntry → Type 0
IsFwd e = IsU16 e.port × IsU32 e.idle_secs

abbrev pub target_bytes : ℕ → Proto → ℕ → List ℕ
target_bytes bind_ip proto port = be32 bind_ip ++ ((proto_byte proto ∷ []) ++ be16 port)

pub put_str-bytes : (b s : List ℕ) → length s < 65536 → put_str b s ≡ b ++ str_bytes s
unfolding put_str
put_str-bytes b s h = ground (arith, append_assoc b (be16 (length s)) s)

pub put_ip_addr-bytes : (b : List ℕ) (ip : IpAddr) → put_ip_addr b ip ≡ b ++ ip_bytes ip
unfolding put_ip_addr
put_ip_addr-bytes b (v4 ip) = append_assoc b (4 ∷ []) (be32 ip)
put_ip_addr-bytes b (v6 octets) = append_assoc b (6 ∷ []) octets

pub put_sockaddr-bytes : (b : List ℕ) (a : SocketAddr) → put_sockaddr b a ≡ b ++ addr_bytes a
unfolding put_sockaddr
put_sockaddr-bytes b a =
    rw (put_ip_addr-bytes b a.ip) (append_assoc b (ip_bytes a.ip) (be16 a.port))

pub put_fwd_entry-bytes : (b : List ℕ) (e : FwdOptionEntry) → put_fwd_entry b e ≡ b ++ fwd_bytes e
unfolding put_fwd_entry
put_fwd_entry-bytes b e = simp append_assoc

pub put_target-bytes :
    (b : List ℕ) (bind_ip : ℕ) (p : Proto) (port : ℕ)
    → put_target b bind_ip p port ≡ b ++ target_bytes bind_ip p port
unfolding put_target
put_target-bytes b bind_ip p port = simp append_assoc

put_each-bytes :
    {A : Type 0} (Valid : A → Type 0) (put : List ℕ → A → List ℕ) (bytes : A → List ℕ)
    → ((b : List ℕ) (x : A) → Valid x → put b x ≡ b ++ bytes x)
    → (b : List ℕ) (xs : List A) → All Valid xs
    → put_each put b xs ≡ b ++ each_bytes bytes xs
unfolding put_each
put_each-bytes Valid put bytes h b [] v = sym (append-nil b)
put_each-bytes Valid put bytes h b (x ∷ xs) (vx, v) =
    put_each-bytes Valid put bytes h (put b x) xs v
    ∙ ap (λ l. l ++ each_bytes bytes xs) (h b x vx)
    ∙ append_assoc b (bytes x) (each_bytes bytes xs)

-- A list that fits its count is written whole.
pub put_list-bytes :
    {A : Type 0} (Valid : A → Type 0) (put : List ℕ → A → List ℕ) (bytes : A → List ℕ)
    → ((b : List ℕ) (x : A) → Valid x → put b x ≡ b ++ bytes x)
    → (b : List ℕ) (xs : List A) → IsList Valid xs
    → put_list put b xs ≡ b ++ list_bytes bytes xs
unfolding put_list
put_list-bytes Valid put bytes h b xs (short, v) =
    let e : min (length xs) 65535 ≡ length xs = omega arith in
    rw e (
      ap (λ l. put_each put (b ++ be16 (length xs)) l) (take_all (length xs) xs (omega arith))
      ∙ put_each-bytes Valid put bytes h (b ++ be16 (length xs)) xs v
      ∙ append_assoc b (be16 (length xs)) (each_bytes bytes xs))

pub put_fwd_entries-bytes :
    (b : List ℕ) (es : List FwdOptionEntry)
    → IsList IsFwd es
    → put_fwd_entries b es ≡ b ++ list_bytes fwd_bytes es
unfolding put_fwd_entries
put_fwd_entries-bytes b es h =
    put_list-bytes IsFwd put_fwd_entry fwd_bytes (λ b e v. put_fwd_entry-bytes b e) b es h
