-- ===== src/Hash/Hmac.antt =====
-- HMAC is the keyed hash of RFC 2104, and the comparison of digests is equality.
use zeronat.Base.{
  ℕ, zero, suc, ◌+◌, ◌-◌, ◌<◌, ◌≡◌, List, [], ◌∷◌, ◌++◌, length, arith, refl, ap, ◌∙◌, ◌==◌, ◌&&◌,
  true, Bool, beq_bytes, Bool-cases, inl, inr, map, replicate, All, IsByte, append-nil, leb,
  if◌then◌else◌,
}
use zeronat.Hash.Blake2s.{
  differences, ct_eq, short_key, xor_pad, xor_each, blake2s, hmac_blake2s, update_all,
}
use Prim.Native.Nat.{bit_or, bit_xor}
use zeronat.Base.Bits.{or-xor_zero}
use zeronat.Hash.Stream.{concat, blake2s-concat}
use zeronat.Hash.Digest.{length-short_key, short_key-bytes}

-- Every number below the bound passes the test.
below : ℕ → (ℕ → Bool) → Bool
below zero test = true
below (suc n) test = test n && below n test

both_true : (a b : Bool) → (a && b) ≡ true → (a ≡ true) × (b ≡ true)
both_true a b h = ground arith

below_sound : (n : ℕ) (test : ℕ → Bool) (k : ℕ) → below n test ≡ true → k < n → test k ≡ true
unfolding below
below_sound zero test k h b = absurd (omega arith)
below_sound (suc n) test k h b =
    let both = both_true (test n) (below n test) h in
    elim (Bool-cases (k == n)) [
      | inl e ↦ (let same : k ≡ n = ground arith in ap test same ∙ both.0)
      | inr e ↦ below_sound n test k both.1 (ground arith)
    ]

same_pads : ℕ → Bool
same_pads k = bit_xor (bit_xor 0x36 k) (bit_xor 0x36 0x5c) == bit_xor 0x5c k

all_pads : below 256 same_pads ≡ true
unfolding below same_pads
all_pads = refl

-- The outer pad from the inner one, on a byte of the key.
pads_xor : (k : ℕ) → k < 256 → bit_xor (bit_xor 0x36 k) (bit_xor 0x36 0x5c) ≡ bit_xor 0x5c k
unfolding same_pads
pads_xor k h =
    let same : same_pads k ≡ true = below_sound 256 same_pads k all_pads h in ground arith

-- RFC 2104: a key longer than a block of 64 bytes is hashed.
unfoldable pub rfc_key : List ℕ → List ℕ
rfc_key key = if leb (length key) 64 then key else blake2s (key ∷ [])

-- RFC 2104: the hash of the outer pad and the hash of the inner pad and the message, with a key of
-- at most a block filled up with zeros.
unfoldable pub under : List ℕ → List ℕ → List ℕ
under message short =
    let block = short ++ replicate (64 - length short) 0 in
    blake2s
      ((map (bit_xor 0x5c) block ++ blake2s ((map (bit_xor 0x36) block ++ message) ∷ [])) ∷ [])

unfoldable pub hmac_reference : List ℕ → List ℕ → List ℕ
hmac_reference key message = under message (rfc_key key)

short_key-rfc_key : (key : List ℕ) → short_key key ≡ rfc_key key
unfolding short_key rfc_key
short_key-rfc_key key = ground arith

xor_pad-nil : (pad : List ℕ) → xor_pad pad [] ≡ pad
unfolding xor_pad
xor_pad-nil [] = refl
xor_pad-nil (p ∷ ps) = refl

map-replicate : (n : ℕ) → replicate n 0x36 ≡ map (bit_xor 0x36) (replicate n 0)
map-replicate zero = refl
map-replicate (suc n) = ap (λ l. 0x36 ∷ l) (map-replicate n)

xor_pad-map :
    (key : List ℕ) (n m : ℕ)
    → length key + m ≡ n
    → xor_pad (replicate n 0x36) key ≡ map (bit_xor 0x36) (key ++ replicate m 0)
unfolding xor_pad
xor_pad-map [] n m h =
    let same : n ≡ m = omega arith in
    xor_pad-nil (replicate n 0x36)
    ∙ map-replicate n
    ∙ ap (λ q. map (bit_xor 0x36) (replicate q 0)) same
xor_pad-map (k ∷ ks) zero m h = absurd (omega arith)
xor_pad-map (k ∷ ks) (suc n) m h = ap (λ l. bit_xor 0x36 k ∷ l) (xor_pad-map ks n m (omega arith))

xor_each-map :
    (block : List ℕ)
    → All IsByte block
    → xor_each (bit_xor 0x36 0x5c) (map (bit_xor 0x36) block) ≡ map (bit_xor 0x5c) block
unfolding xor_each
xor_each-map [] h = refl
xor_each-map (k ∷ ks) h = λ i. pads_xor k h.0 i ∷ xor_each-map ks h.1 i

All-append : (xs ys : List ℕ) → All IsByte xs → All IsByte ys → All IsByte (xs ++ ys)
All-append [] ys h k = k
All-append (x ∷ xs) ys h k = (h.0, All-append xs ys h.1 k)

All-zeros : (n : ℕ) → All IsByte (replicate n 0)
All-zeros zero = tt
All-zeros (suc n) = (omega arith, All-zeros n)

-- For any key of bytes and any parts, the code computes the HMAC of RFC 2104 of the concatenation.
pub hmac_blake2s-hmac_reference :
    (key : List ℕ) (parts : List (List ℕ))
    → All IsByte key
    → hmac_blake2s key parts ≡ hmac_reference key (concat parts)
unfolding hmac_blake2s hmac_reference under concat blake2s update_all
hmac_blake2s-hmac_reference key parts h =
    ap (λ p. blake2s (xor_each opad p ∷ blake2s (p ∷ parts) ∷ [])) pad
    ∙ ap (λ d. blake2s (xor_each opad ipad ∷ d ∷ [])) (blake2s-concat (ipad ∷ parts))
    ∙ ap (λ o. blake2s (o ∷ digest ∷ [])) (xor_each-map block bytes)
    ∙ blake2s-concat (map (bit_xor 0x5c) block ∷ digest ∷ [])
    ∙ ap (λ l. blake2s ((map (bit_xor 0x5c) block ++ l) ∷ [])) (append-nil digest)
    ∙ ap (under (concat parts)) (short_key-rfc_key key)
  where
    opad : ℕ
    opad = bit_xor 0x36 0x5c

    short : List ℕ
    short = short_key key

    block : List ℕ
    block = short ++ replicate (64 - length short) 0

    ipad : List ℕ
    ipad = map (bit_xor 0x36) block

    digest : List ℕ
    digest = blake2s ((ipad ++ concat parts) ∷ [])

    pad : xor_pad (replicate 64 0x36) short ≡ ipad
    pad = xor_pad-map short 64 (64 - length short) (omega (arith, length-short_key key))

    bytes : All IsByte block
    bytes = All-append short _ (short_key-bytes key h) (All-zeros _)

differences-beq_bytes :
    (acc : ℕ) (xs ys : List ℕ)
    → length xs ≡ length ys
    → (differences acc xs ys == 0) ≡ (acc == 0 && beq_bytes xs ys)
unfolding differences
differences-beq_bytes acc [] [] h = ground arith
differences-beq_bytes acc [] (y ∷ ys) h = absurd (omega arith)
differences-beq_bytes acc (x ∷ xs) [] h = absurd (omega arith)
differences-beq_bytes acc (x ∷ xs) (y ∷ ys) h =
    differences-beq_bytes (bit_or acc (bit_xor x y)) xs ys (omega arith)
    ∙ rw (or-xor_zero acc x y) ground arith

beq_bytes-length : (xs ys : List ℕ) → beq_bytes xs ys ≡ true → length xs ≡ length ys
beq_bytes-length [] [] h = refl
beq_bytes-length [] (y ∷ ys) h = absurd cc
beq_bytes-length (x ∷ xs) [] h = absurd cc
beq_bytes-length (x ∷ xs) (y ∷ ys) h = ground (arith, beq_bytes-length xs ys)

-- The comparison that takes the same time for all bytes gives what a byte by byte comparison gives.
pub ct_eq-beq_bytes : (a b : List ℕ) → ct_eq a b ≡ beq_bytes a b
unfolding ct_eq
ct_eq-beq_bytes a b = ground (arith, differences-beq_bytes 0 a b, beq_bytes-length a b)
