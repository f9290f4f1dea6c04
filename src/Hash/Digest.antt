-- ===== src/Hash/Digest.antt =====
-- A digest has 32 bytes, and so a key of HMAC fits in a block.
use zeronat.Base.{
  ℕ, suc, ◌+◌, ◌*◌, ◌≤◌, ◌≡◌, List, [], ◌∷◌, ◌++◌, length, arith, refl, ap, ◌∙◌, All, IsByte, Bool,
  false, take, Bool-cases, replicate, ltb, ◌-◌, inl, true, inr, length-replicate, length-append,
}
use zeronat.Hash.Blake2s.{
  le_bytes, blake2s, flush, Blake2s, finalize, new, update_all, short_key, update,
}
use zeronat.Hash.Stream.{
  absorb, push, update_all-absorb, new-InBlock, concat, InBlock, update-absorb,
}
use zeronat.Hash.Compress.{compress, mix, le32, set}

length-mix : (hs xs ys : List ℕ) → length (mix hs xs ys) ≡ length hs
unfolding mix
length-mix [] xs ys = refl
length-mix (h ∷ hs) [] ys = refl
length-mix (h ∷ hs) (x ∷ xs) [] = refl
length-mix (h ∷ hs) (x ∷ xs) (y ∷ ys) = ap suc (length-mix hs xs ys)

length-compress :
    (h block : List ℕ) (t : ℕ) (last : Bool) → length (compress h block t last) ≡ length h
unfolding compress
length-compress h block t last = length-mix h _ _

length-flush : (s : Blake2s) → length (flush s).h ≡ length s.h
unfolding flush
length-flush s = ground (arith, length-compress s.h s.buf (s.t + 64) false)

length-absorb : (xs : List ℕ) (s : Blake2s) → length (absorb s xs).h ≡ length s.h
unfolding absorb push
length-absorb [] s = refl
length-absorb (x ∷ xs) s = length-absorb xs (push s x) ∙ length-flush s

le_bytes-bytes : (ws : List ℕ) → (length (le_bytes ws) ≡ 4 * length ws) × All IsByte (le_bytes ws)
unfolding le_bytes le32
le_bytes-bytes [] = (refl, tt)
le_bytes-bytes (w ∷ ws) =
    let rest = le_bytes-bytes ws in
    (omega arith, (omega arith, (omega arith, (omega arith, (omega arith, rest.1)))))

length-new : length (new 32 []).h ≡ 8
unfolding new set
length-new = refl

length-update_all : (parts : List (List ℕ)) → length (update_all (new 32 []) parts).h ≡ 8
length-update_all parts =
    ap (λ (s : Blake2s). length s.h) (update_all-absorb parts (new 32 []) new-InBlock)
    ∙ length-absorb (concat parts) (new 32 [])
    ∙ length-new

-- A digest is 32 bytes.
pub blake2s-bytes :
    (parts : List (List ℕ)) → (length (blake2s parts) ≡ 32) × All IsByte (blake2s parts)
unfolding blake2s finalize
blake2s-bytes parts =
    let s = update_all (new 32 []) parts in
    let digest = compress s.h (take s.len s.buf ++ replicate (64 - s.len) 0) (s.t + s.len) true in
    let bytes = le_bytes-bytes digest in
    (
      omega (
        arith,
        bytes.0,
        length-compress s.h (take s.len s.buf ++ replicate (64 - s.len) 0) (s.t + s.len) true,
        length-update_all parts,
      ),
      bytes.1,
    )

-- A key in a block.
pub short_key-bytes : (key : List ℕ) → All IsByte key → All IsByte (short_key key)
unfolding short_key
short_key-bytes key h = elim (Bool-cases (ltb 64 (length key))) [
  | inl e ↦ rw e (blake2s-bytes (key ∷ [])).1
  | inr e ↦ rw e h
]

pub length-short_key : (key : List ℕ) → length (short_key key) ≤ 64
unfolding short_key
length-short_key key = elim (Bool-cases (ltb 64 (length key))) [
  | inl e ↦ rw e (omega (arith, (blake2s-bytes (key ∷ [])).0))
  | inr e ↦ rw e (ground arith)
]

keyed-InBlock : (n : ℕ) (key : List ℕ) → length key ≤ 64 → InBlock (new n key)
unfolding new
keyed-InBlock n [] h = record { block = refl; count = omega arith }
keyed-InBlock n (k ∷ ks) h = record {
  block = omega (
    arith,
    length-append (k ∷ ks) (replicate (64 - length (k ∷ ks)) 0),
    length-replicate {A = ℕ} (64 - length (k ∷ ks)) 0,
  );
  count = omega arith;
}

-- The state that a keyed hash ends in, too.
pub length_keyed :
    (n : ℕ) (key bytes : List ℕ)
    → length key ≤ 64
    → length (finalize (update (new n key) bytes)) ≡ 32
unfolding finalize new set
length_keyed n key bytes h =
    let s = update (new n key) bytes in
    let words_of : length s.h ≡ 8 =
      ap (λ (x : Blake2s). length x.h) (update-absorb (new n key) bytes (keyed-InBlock n key h))
      ∙ length-absorb bytes (new n key) in
    let block = take s.len s.buf ++ replicate (64 - s.len) 0 in
    omega (
      arith,
      (le_bytes-bytes (compress s.h block (s.t + s.len) true)).0,
      length-compress s.h block (s.t + s.len) true,
      words_of,
    )
