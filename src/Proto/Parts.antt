-- ===== src/Proto/Parts.antt =====
-- src/proto.rs: the readers of the parts of messages.
use Prim.Native.String.{String}
use zeronat.Base.{
  ℕ, zero, suc, ◌+◌, ◌/◌, ◌%◌, Bool, true, false, not, ◌&&◌, ◌||◌, Option, none, some, List, [],
  ◌∷◌, ltb, ◌==◌, if◌then◌else◌, length, replicate, bit_and,
}
use zeronat.Proto.Types.{
  Proto, PathStatus, direct, relay, Source, file, cli, runtime, PeerStatus, accepted, unknown_peer,
  peer_offline, not_provided, peer_busy, server_failure, PeerRefuseReason, malformed_identity,
  failed_proof, challenge_failed, identity_claimed, IpAddr, v4, v6, SocketAddr, FwdOptionEntry,
}
use zeronat.Proto.Utf8.{is_utf8}
use zeronat.Proto.Reader.{
  message, bad_byte, truncated, Rd, Reader, ◌>>=◌, ◌>>◌, ret, is_ok, fail, need, at_end, take_bytes,
  get_u8, get_u16, get_u32, get_count, flag, index, get_proto,
}

unfoldable pub utf8_or_fail : List ℕ → Reader (List ℕ)
unfolding fail
utf8_or_fail s = if is_utf8 s then ret s else (fail (message "invalid utf-8 in string") >> ret [])

-- `str`
unfoldable pub get_str : Reader (List ℕ)
unfolding need get_u16 take_bytes utf8_or_fail
get_str = do
  need 2 "truncated string length"
  len ← get_u16
  need len "truncated string body"
  s ← take_bytes len
  utf8_or_fail s

unfoldable pub need_array : ℕ → String → Reader (Unit {0})
unfolding is_ok
need_array n what r =
    (tt, if is_ok r && ltb (length r.rest) n then record r { err = some (truncated what) } else r)

-- `try_into().unwrap_or([0; n])`
abbrev pub array_or_0 : ℕ → List ℕ → List ℕ
array_or_0 n s = if length s == n then s else replicate n 0

unfoldable pub arr32 : String → Reader (List ℕ)
unfolding need_array take_bytes
arr32 what = do need_array 32 what; s ← take_bytes 32; ret (array_or_0 32 s)

unfoldable pub get_ip : Reader ℕ
unfolding need get_u32
get_ip = do need 4 "truncated ipv4 address"; get_u32

-- The address that a family byte announces.
unfoldable pub ip_of_family : ℕ → Reader IpAddr
unfolding need get_u32 take_bytes fail
ip_of_family n =
    if n == 4
    then (do need 4 "truncated ipv4 socket address"; ip ← get_u32; ret (v4 ip))
    else if n == 6
    then (do
      need 16 "truncated ipv6 socket address"
      octets ← take_bytes 16
      ret (v6 (array_or_0 16 octets)))
    else (fail (bad_byte "unknown address family" n) >> ret (v4 0))

-- `sockaddr`
unfoldable pub get_sockaddr : Reader SocketAddr
unfolding need get_u8 ip_of_family get_u16
get_sockaddr = do
  need 1 "truncated address family"
  family ← get_u8
  ip ← ip_of_family family
  need 2 "truncated socket address port"
  port ← get_u16
  ret (record { ip = ip; port = port })

abbrev pub consed : {A : Type 0} → A → List A × Rd → List A × Rd
consed x (xs, r) = (x ∷ xs, r)

-- `for _ in 0..count { if !r.ok() { break; } out.push(entry(r)); }`
unfoldable pub read_each : {A : Type 0} → ℕ → Reader A → Reader (List A)
unfolding is_ok
read_each zero entry r = ([], r)
read_each {A} (suc n) entry r =
    let more : List A × Rd = consed (entry r).0 (read_each n entry (entry r).1) in
    if not (is_ok r) then ([], r) else more

abbrev pub read_list : {A : Type 0} → String → Reader A → Reader (List A)
read_list what entry = do count ← get_count what; read_each count entry

unfoldable pub get_fwd_entry : Reader FwdOptionEntry
get_fwd_entry = do
  need 8 "truncated forward option entry"
  proto ← get_proto
  port ← get_u16
  proxy ← flag "unknown forward option flags"
  idle_secs ← get_u32
  ret (record { proto = proto; port = port; proxy = proxy; idle_secs = idle_secs })

unfoldable pub take_fwd_entries : Reader (List FwdOptionEntry)
take_fwd_entries = read_list "truncated forward options count" get_fwd_entry

-- A byte's set bits.
unfoldable pub count_ones : ℕ → ℕ
count_ones n =
    n % 2 + n / 2 % 2 + n / 4 % 2 + n / 8 % 2 + n / 16 % 2 + n / 32 % 2 + n / 64 % 2 + n / 128 % 2

-- `n & !PROVIDES_MASK != 0`
unfoldable pub outside_mask : ℕ → Bool
outside_mask n = not (bit_and n 0xfc == 0)

unfoldable pub check_provides : ℕ → Reader ℕ
unfolding fail outside_mask
check_provides n = if outside_mask n then (fail (bad_byte "unknown provides" n) >> ret n) else ret n

unfoldable pub provides : Reader ℕ
unfolding check_provides
provides = do n ← get_u8; check_provides n

unfoldable pub check_want : ℕ → Reader ℕ
unfolding fail outside_mask count_ones
check_want n =
    if outside_mask n || not (count_ones n == 1)
    then (fail (bad_byte "invalid want" n) >> ret n)
    else ret n

unfoldable pub want : Reader ℕ
unfolding check_want
want = do n ← get_u8; check_want n

-- The tables that the enum decoders index.
abbrev source_at : ℕ → Source
source_at zero = file
source_at (suc zero) = cli
source_at (suc (suc n)) = runtime

abbrev peer_status_at : ℕ → PeerStatus
peer_status_at zero = accepted
peer_status_at (suc zero) = unknown_peer
peer_status_at (suc (suc zero)) = peer_offline
peer_status_at (suc (suc (suc zero))) = not_provided
peer_status_at (suc (suc (suc (suc zero)))) = peer_busy
peer_status_at (suc (suc (suc (suc (suc n))))) = server_failure

abbrev refuse_reason_at : ℕ → PeerRefuseReason
refuse_reason_at zero = malformed_identity
refuse_reason_at (suc zero) = failed_proof
refuse_reason_at (suc (suc zero)) = challenge_failed
refuse_reason_at (suc (suc (suc n))) = identity_claimed

abbrev path_status_at : ℕ → PathStatus
path_status_at zero = direct
path_status_at (suc n) = relay

unfoldable pub get_source : Reader Source
get_source = do i ← index 3 "unknown source"; ret (source_at i)

unfoldable pub get_peer_status : Reader PeerStatus
get_peer_status = do i ← index 6 "unknown peer status"; ret (peer_status_at i)

unfoldable pub get_refuse_reason : Reader PeerRefuseReason
get_refuse_reason = do i ← index 4 "unknown refuse reason"; ret (refuse_reason_at i)

unfoldable pub get_path_status : Reader PathStatus
get_path_status = do i ← index 2 "unknown path status"; ret (path_status_at i)

unfoldable pub take_target : Reader (ℕ × Proto × ℕ)
take_target = do bind_ip ← get_ip; proto ← get_proto; port ← get_u16; ret (bind_ip, proto, port)

unfoldable pub secret_if : Bool → Reader (Option (List ℕ))
secret_if false = ret none
secret_if true = do secret ← arr32 "client secret"; ret (some secret)

unfoldable pub take_client_credential : Reader (List ℕ × Option (List ℕ))
unfolding secret_if
take_client_credential = do
  client_id ← get_str
  need 1 "truncated client credential"
  given ← flag "unknown client credential flag"
  secret ← secret_if given
  at_end "trailing bytes in client credential"
  ret (client_id, secret)
