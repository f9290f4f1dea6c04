-- ===== src/Base/Digits.antt =====
-- Binary digits of numbers, under or, and, shifts and remainders.
use Prim.Native.Nat.{
  ◌-◌, ℕ, zero, suc, ◌+◌, ◌*◌, ◌/◌, ◌%◌, ◌^◌, ◌≤◌, ◌<◌, min, max, bit_and, bit_or, bit_and-bitwise,
  bit_or-bitwise, digits, bitwise,
}
use mathlib.Core.Path.{◌≡◌, refl, sym, ◌∙◌, ap}
use native.Mathlib.Nat.{
  pow-suc, mul_assoc, one-le-pow, div-add-mod, mod-lt, mod-eq_of_lt, mul-add-mod_self_left,
}
use mathlib.Core.Logic.{◌≢◌, inl, inr}
use zeronat.Base.Tests.{ltb, Bool-cases}
use native.Mathlib.Omega.{arith}

-- The digit of the value 2 ^ k.
unfoldable pub bit : ℕ → ℕ → ℕ
bit x zero = x % 2
bit x (suc k) = bit (x / 2) k

module _ (z : ℕ → ℕ) (f : ℕ → ℕ → ℕ) where
  digits_fuel : (n m a b : ℕ) → a ≤ n → a ≤ m → digits z f n a b ≡ digits z f m a b
  digits_fuel zero zero a b h k = refl
  digits_fuel zero (suc m) zero b h k = refl
  digits_fuel zero (suc m) (suc a) b h k = absurd (omega arith)
  digits_fuel (suc n) zero zero b h k = refl
  digits_fuel (suc n) zero (suc a) b h k = absurd (omega arith)
  digits_fuel (suc n) (suc m) zero b h k = refl
  digits_fuel (suc n) (suc m) (suc a) b h k =
      ap (λ d. d * 2 + f (suc a % 2) (b % 2))
        (digits_fuel n m (suc a / 2) (b / 2) (omega arith) (omega arith))

  bitwise_halves :
      (a b : ℕ)
      → z b ≡ z (b / 2) * 2 + f 0 (b % 2)
      → bitwise z f a b ≡ bitwise z f (a / 2) (b / 2) * 2 + f (a % 2) (b % 2)
  bitwise_halves zero b e = e
  bitwise_halves (suc a) b e =
      ap (λ d. d * 2 + f (suc a % 2) (b % 2))
        (digits_fuel a (suc a / 2) (suc a / 2) (b / 2) (omega arith) (omega arith))

bit_or_halves : (a b : ℕ) → bit_or a b ≡ bit_or (a / 2) (b / 2) * 2 + max (a % 2) (b % 2)
bit_or_halves a b =
    (λ i. bit_or-bitwise a b i)
    ∙ bitwise_halves (λ d. d) max a b (omega arith)
    ∙ ap (λ d. d * 2 + max (a % 2) (b % 2)) (sym (λ i. bit_or-bitwise (a / 2) (b / 2) i))

bit_and_halves : (a b : ℕ) → bit_and a b ≡ bit_and (a / 2) (b / 2) * 2 + min (a % 2) (b % 2)
bit_and_halves a b =
    (λ i. bit_and-bitwise a b i)
    ∙ bitwise_halves (λ d. 0) min a b (omega arith)
    ∙ ap (λ d. d * 2 + min (a % 2) (b % 2)) (sym (λ i. bit_and-bitwise (a / 2) (b / 2) i))

pub bit-bit_or : (k a b : ℕ) → bit (bit_or a b) k ≡ max (bit a k) (bit b k)
unfolding bit
bit-bit_or zero a b = omega (arith, bit_or_halves a b)
bit-bit_or (suc k) a b =
    let half : bit_or a b / 2 ≡ bit_or (a / 2) (b / 2) = omega (arith, bit_or_halves a b) in
    ap (λ x. bit x k) half ∙ bit-bit_or k (a / 2) (b / 2)

pow_double : (k : ℕ) → 2 ^ suc k ≡ 2 ^ k * 2
pow_double k = pow-suc 2 k

-- No digit of 0 is set.
bit_zero : (k : ℕ) → bit 0 k ≡ 0
unfolding bit
bit_zero zero = refl
bit_zero (suc k) = bit_zero k

doubled : (s a : ℕ) → s * 2 ^ suc a ≡ s * 2 ^ a * 2
doubled s a = ap (λ p. s * p) (pow_double a) ∙ sym (mul_assoc s (2 ^ a) 2)

bit_and_none : (n a : ℕ) → digits (λ d. 0) min n a 0 ≡ 0
bit_and_none zero a = refl
bit_and_none (suc n) zero = refl
bit_and_none (suc n) (suc a) = omega (arith, bit_and_none n (suc a / 2))

bit_and_zero : (a : ℕ) → bit_and a 0 ≡ 0
bit_and_zero a = (λ i. bit_and-bitwise a 0 i) ∙ bit_and_none a a

pub bit_and-pow : (k a : ℕ) → bit_and a (2 ^ k) ≡ bit a k * 2 ^ k
unfolding bit
bit_and-pow zero a = omega (arith, bit_and_halves a 1, bit_and_zero (a / 2))
bit_and-pow (suc k) a =
    let half : 2 ^ suc k / 2 ≡ 2 ^ k = omega (arith, pow_double k) in
    let rest : bit_and (a / 2) (2 ^ suc k / 2) ≡ bit (a / 2) k * 2 ^ k =
      ap (bit_and (a / 2)) half ∙ bit_and-pow k (a / 2) in
    omega (arith, bit_and_halves a (2 ^ suc k), rest, doubled (bit (a / 2) k) k, pow_double k)

-- A shift to the left.
shifted_even : (s a : ℕ) → (s * 2 ^ suc a / 2 ≡ s * 2 ^ a) × (s * 2 ^ suc a % 2 ≡ 0)
shifted_even s a = let e = doubled s a in (omega (arith, e), omega (arith, e))

pub bit_shifted : (a k j s : ℕ) → j ≡ a + k → bit (s * 2 ^ a) j ≡ bit s k
unfolding bit
bit_shifted zero k j s h =
    (let same : s * 1 ≡ s = omega arith in let at : j ≡ k = omega arith in λ i. bit (same i) (at i))
bit_shifted (suc a) k zero s h = absurd (omega arith)
bit_shifted (suc a) k (suc j) s h =
    ap (λ x. bit x j) (shifted_even s a).0 ∙ bit_shifted a k j s (omega arith)

pub bit_below_shift : (a j s : ℕ) → j < a → bit (s * 2 ^ a) j ≡ 0
unfolding bit
bit_below_shift zero j s h = absurd (omega arith)
bit_below_shift (suc a) zero s h = (shifted_even s a).1
bit_below_shift (suc a) (suc j) s h =
    ap (λ x. bit x j) (shifted_even s a).0 ∙ bit_below_shift a j s (omega arith)

-- The remainder by a power of two keeps the digits below it.
remainder_halves : (m x : ℕ) → x % 2 ^ suc m ≡ (x / 2) % 2 ^ m * 2 + x % 2
remainder_halves m x =
    let p = 2 ^ m in
    let d = 2 ^ suc m in
    let q = x / 2 / p in
    let r = x / 2 % p in
    let rearranged : d * q ≡ p * q * 2 = ap (λ y. y * q) (pow_double m) ∙ omega arith in
    let split : x ≡ d * q + (r * 2 + x % 2) = omega (arith, div-add-mod (x / 2) p, rearranged) in
    let small : r * 2 + x % 2 < d =
      omega (arith, mod-lt (x / 2) (one-le-pow m 2 (omega arith)), pow_double m) in
    ap (λ y. y % d) split ∙ mul-add-mod_self_left d q (r * 2 + x % 2) ∙ mod-eq_of_lt small

pub bit_remainder : (m k x : ℕ) → k < m → bit (x % 2 ^ m) k ≡ bit x k
unfolding bit
bit_remainder zero k x h = absurd (omega arith)
bit_remainder (suc m) zero x h = omega (arith, remainder_halves m x)
bit_remainder (suc m) (suc k) x h =
    let half : x % 2 ^ suc m / 2 ≡ (x / 2) % 2 ^ m = omega (arith, remainder_halves m x) in
    ap (λ y. bit y k) half ∙ bit_remainder m k (x / 2) (omega arith)

-- A single digit.
pub bit_one : (k : ℕ) → 0 < k → bit 1 k ≡ 0
unfolding bit
bit_one zero h = absurd (omega arith)
bit_one (suc k) h = bit_zero k

one_times : (k : ℕ) → 2 ^ k ≡ 1 * 2 ^ k
one_times k = omega arith

pub bit_pow_self : (k : ℕ) → bit (2 ^ k) k ≡ 1
unfolding bit
bit_pow_self k = ap (λ x. bit x k) (one_times k) ∙ bit_shifted k 0 k 1 (omega arith)

pub bit_pow_other : (k j : ℕ) → k ≢ j → bit (2 ^ k) j ≡ 0
bit_pow_other k j h = ap (λ x. bit x j) (one_times k) ∙ elim (Bool-cases (ltb j k)) [
  | inl e ↦ bit_below_shift k j 1 (ground arith)
  | inr e ↦
      (let later : j ≡ k + suc (j - suc k) = ground arith in
        bit_shifted k (suc (j - suc k)) j 1 later ∙ bit_one (suc (j - suc k)) (omega arith))
]
