-- ===== src/Hash/Blake2s.antt =====
-- src/hash.rs: the hash in progress, its digest, HMAC and the comparison of digests. A write
-- into the buffer replaces the bytes that it covers.

use Prim.Native.Nat.{bit_xor, bit_or}
use zeronat.Base.{
  ℕ, zero, suc, ◌+◌, ◌-◌, ◌*◌, ◌^◌, ◌%◌, List, [], ◌∷◌, ◌++◌, get_or, take, drop, Bool, true, false,
  if◌then◌else◌, replicate, length, min, ◌==◌, ltb, not,
}
use zeronat.Hash.Compress.{set, compress, le32, iv}

pub record Blake2s : Type 0 where
  pub h : List ℕ
  pub t : ℕ
  pub buf : List ℕ
  pub len : ℕ

-- `Blake2s::new`
unfoldable pub new : ℕ → List ℕ → Blake2s
new outlen key = record {
  h = set iv 0 (
      bit_xor (get_or iv 0 0)
        (bit_xor (bit_xor 0x01010000 (length key * 256 % 2 ^ 32)) (outlen % 2 ^ 32)));
  t = 0;
  buf = key ++ replicate (64 - length key) 0;
  len = elim key [ [] ↦ 0 | _ ↦ 64 ];
}

-- The full buffer goes into the state before more bytes do.
unfoldable pub flush : Blake2s → Blake2s
flush s =
    if s.len == 64
    then record s { t = s.t + 64; h = compress s.h s.buf (s.t + 64) false; len = 0 }
    else s

-- `buf[at..at + bytes.len()].copy_from_slice(bytes)`
unfoldable pub write_at : List ℕ → ℕ → List ℕ → List ℕ
write_at buf zero bytes = bytes ++ drop (length bytes) buf
write_at [] (suc at) bytes = bytes
write_at (x ∷ buf) (suc at) bytes = x ∷ write_at buf at bytes

-- The part of the bytes that fits goes into the buffer.
unfoldable pub fill : Blake2s → ℕ → List ℕ → Blake2s
fill s n bytes = record s { buf = write_at s.buf s.len (take n bytes); len = s.len + n }

-- `while !data.is_empty()`: each turn takes at least one byte.
unfoldable pub update_loop : ℕ → Blake2s → List ℕ → Blake2s
update_loop zero s bytes = s
update_loop (suc fuel) s [] = s
update_loop (suc fuel) s (b ∷ bs) =
    let bytes = b ∷ bs in
    let ready = flush s in
    let n = min (length bytes) (64 - ready.len) in
    update_loop fuel (fill ready n bytes) (drop n bytes)

unfoldable pub update : Blake2s → List ℕ → Blake2s
update s bytes = update_loop (length bytes) s bytes

unfoldable pub le_bytes : List ℕ → List ℕ
le_bytes [] = []
le_bytes (w ∷ ws) = le32 w ++ le_bytes ws

unfoldable pub finalize : Blake2s → List ℕ
finalize s =
    le_bytes (compress s.h (take s.len s.buf ++ replicate (64 - s.len) 0) (s.t + s.len) true)

unfoldable pub update_all : Blake2s → List (List ℕ) → Blake2s
update_all s [] = s
update_all s (p ∷ ps) = update_all (update s p) ps

unfoldable pub blake2s : List (List ℕ) → List ℕ
blake2s parts = finalize (update_all (new 32 []) parts)

-- `*p ^= k` over the pad and the key
unfoldable pub xor_pad : List ℕ → List ℕ → List ℕ
xor_pad (p ∷ ps) (k ∷ ks) = bit_xor p k ∷ xor_pad ps ks
xor_pad pad key = pad

unfoldable pub xor_each : ℕ → List ℕ → List ℕ
xor_each x [] = []
xor_each x (p ∷ ps) = bit_xor p x ∷ xor_each x ps

unfoldable pub short_key : List ℕ → List ℕ
short_key key = if ltb 64 (length key) then blake2s (key ∷ []) else key

unfoldable pub hmac_blake2s : List ℕ → List (List ℕ) → List ℕ
hmac_blake2s key parts =
    let pad = xor_pad (replicate 64 0x36) (short_key key) in
    let inner = finalize (update_all (update (new 32 []) pad) parts) in
    blake2s (xor_each (bit_xor 0x36 0x5c) pad ∷ inner ∷ [])

unfoldable pub differences : ℕ → List ℕ → List ℕ → ℕ
differences acc (x ∷ xs) (y ∷ ys) = differences (bit_or acc (bit_xor x y)) xs ys
differences acc _ _ = acc

unfoldable pub ct_eq : List ℕ → List ℕ → Bool
ct_eq a b = if not (length a == length b) then false else differences 0 a b == 0
