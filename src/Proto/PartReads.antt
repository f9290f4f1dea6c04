-- ===== src/Proto/PartReads.antt =====
-- The readers of parts read back the bytes of `Encoded`.
use Prim.Native.String.{String}
use zeronat.Base.{
  ◌∷◌, be16, ℕ, ◌≡◌, refl, true, List, [], ◌++◌, length, be32, arith, append-nil, length-append,
  All, zero, suc, append_assoc, inl, inr,
}
use zeronat.Proto.Encoded.{
  IsU32, IsArray, IsStr, str_bytes, IsAddr, IsList, each_bytes, list_bytes, IsProvides, IsWant,
  IsU16, IsFwd, addr_bytes, fwd_bytes, target_bytes,
}
use zeronat.Proto.Utf8.{is_utf8}
use zeronat.Proto.Reader.{Reader, ◌>>=◌, ◌>>◌, ret, need, get_u16}
use zeronat.Proto.Parts.{
  get_str, utf8_or_fail, need_array, arr32, get_ip, ip_of_family, array_or_0, get_fwd_entry,
  take_fwd_entries, want, provides, get_source, take_target, read_each, read_list, check_want,
  check_provides, outside_mask, count_ones, get_sockaddr,
}
use zeronat.Proto.Reads.{
  fresh, Reads, Reads-ret, Reads-bind, Reads-need, Reads-bytes, take_bytes-Reads, get_u16-Reads,
  get_u32-Reads, get_count-Reads, get_u8-Reads, index-Reads, get_proto-Reads, flag-Reads,
}
use zeronat.Proto.Types.{
  FwdOptionEntry, Proto, v6, SocketAddr, IpAddr, Source, v4, source_byte, file, cli, runtime,
}

-- A last reader in a `do` block, whose result is returned as it is or repacked.
pub Reads-last :
    {A B : Type 0} {m : Reader A} (f : A → Reader B) {xs : List ℕ} {a : A} {b : B}
    → Reads m xs a
    → Reads (f a) [] b
    → Reads (m >>= f) xs b
Reads-last f {xs = xs} h k = Reads-bytes (append-nil xs) (Reads-bind f h k)

utf8_or_fail-Reads : (s : List ℕ) → is_utf8 s ≡ true → Reads (utf8_or_fail s) [] s
unfolding utf8_or_fail
utf8_or_fail-Reads s h = rw h (Reads-ret s)

pub get_str-Reads : (s : List ℕ) → IsStr s → Reads get_str (str_bytes s) s
unfolding get_str
get_str-Reads s (short, valid) = Reads-need _ (omega arith) (
    Reads-bind _ (get_u16-Reads (length s) short) (
      Reads-need _ (omega arith)
        (Reads-last _ (take_bytes-Reads s refl) (utf8_or_fail-Reads s valid))))

need_array-ok :
    (n : ℕ) (what : String) (s tail : List ℕ)
    → length s ≡ n
    → need_array n what (fresh (s ++ tail)) ≡ (tt, fresh (s ++ tail))
unfolding need_array
need_array-ok n what s tail h = ground (arith, length-append s tail)

pub arr32-Reads : (what : String) (s : List ℕ) → IsArray 32 s → Reads (arr32 what) s s
unfolding arr32 ◌>>◌ ◌>>=◌ ret
arr32-Reads what s h = record {
  runs = λ tail. ground (arith, need_array-ok 32 what s tail, (take_bytes-Reads s h).runs tail);
}

pub get_ip-Reads : (ip : ℕ) → IsU32 ip → Reads get_ip (be32 ip) ip
unfolding get_ip
get_ip-Reads ip h = Reads-need _ (omega arith) (get_u32-Reads ip h)

ip_of_family-Reads4 : (ip : ℕ) → IsU32 ip → Reads (ip_of_family 4) (be32 ip) (v4 ip)
unfolding ip_of_family
ip_of_family-Reads4 ip h =
    Reads-need _ (omega arith) (Reads-last _ (get_u32-Reads ip h) (Reads-ret (v4 ip)))

pub array_kept : (n : ℕ) (s : List ℕ) → length s ≡ n → array_or_0 n s ≡ s
array_kept n s h = ground arith

ip_of_family-Reads6 : (s : List ℕ) → IsArray 16 s → Reads (ip_of_family 6) s (v6 s)
unfolding ip_of_family
ip_of_family-Reads6 s h =
    Reads-need _ (omega arith)
      (Reads-last _ (take_bytes-Reads s h) (rw (array_kept 16 s h) (Reads-ret (v6 s))))

abbrev addr : IpAddr → ℕ → SocketAddr
addr ip port = record { ip = ip; port = port }

port_after :
    (ip : IpAddr) (port : ℕ)
    → IsU16 port
    → Reads
        (need 2 "truncated socket address port" >> (get_u16 >>= λ port. ret (addr ip port)))
        (be16 port)
        (addr ip port)
port_after ip port h =
    Reads-need _ (omega arith) (Reads-last _ (get_u16-Reads port h) (Reads-ret _))

pub get_sockaddr-Reads : (a : SocketAddr) → IsAddr a → Reads get_sockaddr (addr_bytes a) a
get_sockaddr-Reads a h = with_ip a.ip a.port h
  where
    with_ip :
        (ip : IpAddr) (port : ℕ)
        → IsAddr (record { ip = ip; port = port })
        → Reads get_sockaddr
            (addr_bytes (record { ip = ip; port = port }))
            (record { ip = ip; port = port })
    with_ip (v4 ip) port (hi, hp) =
        unfold get_sockaddr in
        Reads-need _ (omega arith) (
          Reads-bind _ (get_u8-Reads 4)
            (Reads-bind _ (ip_of_family-Reads4 ip hi) (port_after (v4 ip) port hp)))
    with_ip (v6 s) port (hi, hp) =
        unfold get_sockaddr in
        Reads-need _ (omega arith) (
          Reads-bind _ (get_u8-Reads 6)
            (Reads-bind _ (ip_of_family-Reads6 s hi) (port_after (v6 s) port hp)))

pub read_each-Reads :
    {A : Type 0} (Valid : A → Type 0) (entry : Reader A) (bytes : A → List ℕ)
    → ((x : A) → Valid x → Reads entry (bytes x) x)
    → (xs : List A) → All Valid xs
    → Reads (read_each (length xs) entry) (each_bytes bytes xs) xs
read_each-Reads Valid entry bytes h [] v = record { runs = λ tail. unfold read_each in refl }
read_each-Reads Valid entry bytes h (x ∷ xs) (vx, v) =
    one (h x vx) (read_each-Reads Valid entry bytes h xs v)
  where
    one :
        Reads entry (bytes x) x
        → Reads (read_each (length xs) entry) (each_bytes bytes xs) xs
        → Reads (read_each (suc (length xs)) entry) (bytes x ++ each_bytes bytes xs) (x ∷ xs)
    one first rest = record {
      runs = λ tail.
          unfold read_each in
          ground (
            arith,
            append_assoc (bytes x) (each_bytes bytes xs) tail,
            first.runs (each_bytes bytes xs ++ tail),
            rest.runs tail,
          );
    }

-- A counted list is read back entry by entry.
pub read_list-Reads :
    {A : Type 0} (Valid : A → Type 0) (entry : Reader A) (bytes : A → List ℕ) (what : String)
    → ((x : A) → Valid x → Reads entry (bytes x) x)
    → (xs : List A) → IsList Valid xs
    → Reads (read_list what entry) (list_bytes bytes xs) xs
read_list-Reads Valid entry bytes what h xs (short, v) =
    Reads-bind _ (get_count-Reads what (length xs) short) (read_each-Reads Valid entry bytes h xs v)

pub get_fwd_entry-Reads : (e : FwdOptionEntry) → IsFwd e → Reads get_fwd_entry (fwd_bytes e) e
unfolding get_fwd_entry
get_fwd_entry-Reads e (hp, hi) = Reads-need _ (omega arith) (
    Reads-bind _ (get_proto-Reads e.proto) (
      Reads-bind _ (get_u16-Reads e.port hp) (
        Reads-bind _ (flag-Reads _ e.proxy)
          (Reads-last _ (get_u32-Reads e.idle_secs hi) (Reads-ret e)))))

pub take_fwd_entries-Reads :
    (es : List FwdOptionEntry)
    → IsList IsFwd es
    → Reads take_fwd_entries (list_bytes fwd_bytes es) es
unfolding take_fwd_entries
take_fwd_entries-Reads es h =
    read_list-Reads IsFwd get_fwd_entry fwd_bytes _ get_fwd_entry-Reads es h

pub want-Reads : (w : ℕ) → IsWant w → Reads want (w ∷ []) w
unfolding want check_want outside_mask count_ones
want-Reads w (inl e) = rw e (Reads-last _ (get_u8-Reads 1) (Reads-ret 1))
want-Reads w (inr e) = rw e (Reads-last _ (get_u8-Reads 2) (Reads-ret 2))

pub provides-Reads : (n : ℕ) → IsProvides n → Reads provides (n ∷ []) n
unfolding provides check_provides outside_mask
provides-Reads zero h = Reads-last _ (get_u8-Reads 0) (Reads-ret 0)
provides-Reads (suc zero) h = Reads-last _ (get_u8-Reads 1) (Reads-ret 1)
provides-Reads (suc (suc zero)) h = Reads-last _ (get_u8-Reads 2) (Reads-ret 2)
provides-Reads (suc (suc (suc zero))) h = Reads-last _ (get_u8-Reads 3) (Reads-ret 3)
provides-Reads (suc (suc (suc (suc n)))) h = absurd (omega arith)

pub get_source-Reads : (s : Source) → Reads get_source (source_byte s ∷ []) s
unfolding get_source
get_source-Reads file = Reads-last _ (index-Reads _ 0 (omega arith)) (Reads-ret file)
get_source-Reads cli = Reads-last _ (index-Reads _ 1 (omega arith)) (Reads-ret cli)
get_source-Reads runtime = Reads-last _ (index-Reads _ 2 (omega arith)) (Reads-ret runtime)

pub take_target-Reads :
    (bind_ip : ℕ) (p : Proto) (port : ℕ)
    → IsU32 bind_ip
    → IsU16 port
    → Reads take_target (target_bytes bind_ip p port) (bind_ip, p, port)
unfolding take_target
take_target-Reads bind_ip p port hi hp = Reads-bind _ (get_ip-Reads bind_ip hi) (
    Reads-bind _ (get_proto-Reads p)
      (Reads-last _ (get_u16-Reads port hp) (Reads-ret (bind_ip, p, port))))
