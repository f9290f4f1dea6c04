-- ===== src/Hash/Compress.antt =====
-- src/hash.rs: the compression function of BLAKE2s. A u32 is a number below 2 ^ 32, and an array of
-- words is a list.
use Prim.Native.Nat.{bit_xor}
use zeronat.Base.{
  ℕ, zero, suc, ◌+◌, ◌-◌, ◌*◌, ◌/◌, ◌%◌, ◌^◌, List, [], ◌∷◌, ◌++◌, get_or, take, drop, Bool,
  if◌then◌else◌,
}

abbrev pub iv : List ℕ
iv =
    0x6A09E667 ∷ 0xBB67AE85 ∷ 0x3C6EF372 ∷ 0xA54FF53A ∷ 0x510E527F ∷ 0x9B05688C ∷ 0x1F83D9AB
    ∷ 0x5BE0CD19 ∷ []

-- `a[i] = x` on an array that has the index.
unfoldable pub set : List ℕ → ℕ → ℕ → List ℕ
set [] i x = []
set (y ∷ ys) zero x = x ∷ ys
set (y ∷ ys) (suc i) x = y ∷ set ys i x

-- `wrapping_add`
unfoldable pub wrapping_add : ℕ → ℕ → ℕ
wrapping_add a b = (a + b) % 2 ^ 32

-- `rotate_right` by fewer than 32 digits
unfoldable pub rotate_right : ℕ → ℕ → ℕ
rotate_right x n = (x / 2 ^ n + x * 2 ^ (32 - n)) % 2 ^ 32

-- `u32::from_le_bytes` on each chunk of four bytes; a shorter chunk at the end is left out.
unfoldable pub words : List ℕ → List ℕ
words (a ∷ b ∷ c ∷ d ∷ rest) = (a + b * 256 + c * 65536 + d * 16777216) ∷ words rest
words _ = []

-- `u32::to_le_bytes`
unfoldable pub le32 : ℕ → List ℕ
le32 v = v % 256 ∷ v / 256 % 256 ∷ v / 65536 % 256 ∷ v / 16777216 % 256 ∷ []

-- `v[i]` on an array that has the index.
abbrev at : List ℕ → ℕ → ℕ
at v i = get_or v i 0

-- One half of `g!`: with its word of the message and its two rotations.
unfoldable pub half : ℕ → ℕ → ℕ → ℕ → ℕ → ℕ → ℕ → List ℕ → List ℕ
half a b c d x r s v =
    let v1 = set v a (wrapping_add (wrapping_add (at v a) (at v b)) x) in
    let v2 = set v1 d (rotate_right (bit_xor (at v1 d) (at v1 a)) r) in
    let v3 = set v2 c (wrapping_add (at v2 c) (at v2 d)) in
    set v3 b (rotate_right (bit_xor (at v3 b) (at v3 c)) s)

unfoldable pub g : ℕ → ℕ → ℕ → ℕ → ℕ → ℕ → List ℕ → List ℕ
g a b c d x y v = half a b c d y 8 7 (half a b c d x 16 12 v)

-- `round!`, with the order in which it takes the words of the message.
unfoldable pub round : List ℕ → List ℕ → List ℕ → List ℕ
round m order v =
    let w : ℕ → ℕ = λ i. at m (at order i) in
    let v1 =
      g 3 7 11 15 (w 6) (w 7)
        (g 2 6 10 14 (w 4) (w 5) (g 1 5 9 13 (w 2) (w 3) (g 0 4 8 12 (w 0) (w 1) v))) in
    g 3 4 9 14 (w 14) (w 15)
      (g 2 7 8 13 (w 12) (w 13) (g 1 6 11 12 (w 10) (w 11) (g 0 5 10 15 (w 8) (w 9) v1)))

abbrev pub orders : List (List ℕ)
orders =
    (0 ∷ 1 ∷ 2 ∷ 3 ∷ 4 ∷ 5 ∷ 6 ∷ 7 ∷ 8 ∷ 9 ∷ 10 ∷ 11 ∷ 12 ∷ 13 ∷ 14 ∷ 15 ∷ [])
    ∷ (14 ∷ 10 ∷ 4 ∷ 8 ∷ 9 ∷ 15 ∷ 13 ∷ 6 ∷ 1 ∷ 12 ∷ 0 ∷ 2 ∷ 11 ∷ 7 ∷ 5 ∷ 3 ∷ [])
    ∷ (11 ∷ 8 ∷ 12 ∷ 0 ∷ 5 ∷ 2 ∷ 15 ∷ 13 ∷ 10 ∷ 14 ∷ 3 ∷ 6 ∷ 7 ∷ 1 ∷ 9 ∷ 4 ∷ [])
    ∷ (7 ∷ 9 ∷ 3 ∷ 1 ∷ 13 ∷ 12 ∷ 11 ∷ 14 ∷ 2 ∷ 6 ∷ 5 ∷ 10 ∷ 4 ∷ 0 ∷ 15 ∷ 8 ∷ [])
    ∷ (9 ∷ 0 ∷ 5 ∷ 7 ∷ 2 ∷ 4 ∷ 10 ∷ 15 ∷ 14 ∷ 1 ∷ 11 ∷ 12 ∷ 6 ∷ 8 ∷ 3 ∷ 13 ∷ [])
    ∷ (2 ∷ 12 ∷ 6 ∷ 10 ∷ 0 ∷ 11 ∷ 8 ∷ 3 ∷ 4 ∷ 13 ∷ 7 ∷ 5 ∷ 15 ∷ 14 ∷ 1 ∷ 9 ∷ [])
    ∷ (12 ∷ 5 ∷ 1 ∷ 15 ∷ 14 ∷ 13 ∷ 4 ∷ 10 ∷ 0 ∷ 7 ∷ 6 ∷ 3 ∷ 9 ∷ 2 ∷ 8 ∷ 11 ∷ [])
    ∷ (13 ∷ 11 ∷ 7 ∷ 14 ∷ 12 ∷ 1 ∷ 3 ∷ 9 ∷ 5 ∷ 0 ∷ 15 ∷ 4 ∷ 8 ∷ 6 ∷ 2 ∷ 10 ∷ [])
    ∷ (6 ∷ 15 ∷ 14 ∷ 9 ∷ 11 ∷ 3 ∷ 0 ∷ 8 ∷ 12 ∷ 2 ∷ 13 ∷ 7 ∷ 1 ∷ 4 ∷ 10 ∷ 5 ∷ [])
    ∷ (10 ∷ 2 ∷ 8 ∷ 4 ∷ 7 ∷ 6 ∷ 1 ∷ 5 ∷ 15 ∷ 11 ∷ 9 ∷ 14 ∷ 3 ∷ 12 ∷ 13 ∷ 0 ∷ [])
    ∷ []

unfoldable pub run_rounds : List ℕ → List (List ℕ) → List ℕ → List ℕ
run_rounds m [] v = v
run_rounds m (o ∷ os) v = run_rounds m os (round m o v)

-- The working words before the rounds.
unfoldable pub working : List ℕ → ℕ → Bool → List ℕ
working h t final =
    let v = h ++ iv in
    let v1 = set v 12 (bit_xor (get_or v 12 0) (t % 2 ^ 32)) in
    let v2 = set v1 13 (bit_xor (get_or v1 13 0) (t / 2 ^ 32 % 2 ^ 32)) in
    if final then set v2 14 (2 ^ 32 - 1 - get_or v2 14 0) else v2

-- `h[i] ^= v[i] ^ v[i + 8]`, with the halves of `v`.
unfoldable pub mix : List ℕ → List ℕ → List ℕ → List ℕ
mix (h ∷ hs) (a ∷ xs) (b ∷ ys) = bit_xor h (bit_xor a b) ∷ mix hs xs ys
mix hs _ _ = hs

unfoldable pub compress : List ℕ → List ℕ → ℕ → Bool → List ℕ
compress h block t final =
    let v = run_rounds (words block) orders (working h t final) in mix h (take 8 v) (drop 8 v)
