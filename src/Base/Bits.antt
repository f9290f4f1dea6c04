-- ===== src/Base/Bits.antt =====
-- Exclusive or and or of binary digits that come to 0.
use Prim.Native.Nat.{
  ℕ, zero, suc, ◌/◌, ◌%◌, ◌≤◌, bit_xor, bit_or, bit_xor-bitwise, bit_or-bitwise, digits, differ,
  max,
}
use mathlib.Core.Path.{◌≡◌, refl, sym, ◌∙◌, ap}
use mathlib.Core.Bool.{◌&&◌}
use zeronat.Base.Tests.{◌==◌}
use native.Mathlib.Omega.{arith}

differ_zero : (x y : ℕ) → differ x y ≡ 0 → x ≡ y
differ_zero zero y h = sym h
differ_zero (suc x) zero h = absurd (omega arith)
differ_zero (suc x) (suc y) h = ap suc (differ_zero x y h)

differ_self : (x : ℕ) → differ x x ≡ 0
differ_self zero = refl
differ_self (suc x) = differ_self x

xor_digits_zero : (n a b : ℕ) → a ≤ n → digits (λ d. d) differ n a b ≡ 0 → a ≡ b
xor_digits_zero zero zero b h e = sym e
xor_digits_zero zero (suc a) b h e = absurd (omega arith)
xor_digits_zero (suc n) zero b h e = sym e
xor_digits_zero (suc n) (suc a) b h e =
    let high : suc a / 2 ≡ b / 2 =
      xor_digits_zero n (suc a / 2) (b / 2) (omega arith) (omega arith) in
    let low : suc a % 2 ≡ b % 2 = differ_zero (suc a % 2) (b % 2) (omega arith) in omega arith

xor_digits_self : (n a : ℕ) → a ≤ n → digits (λ d. d) differ n a a ≡ 0
xor_digits_self zero a h = omega arith
xor_digits_self (suc n) zero h = refl
xor_digits_self (suc n) (suc a) h =
    omega (arith, xor_digits_self n (suc a / 2) (omega arith), differ_self (suc a % 2))

or_digits_zero : (n a b : ℕ) → a ≤ n → digits (λ d. d) max n a b ≡ 0 → (a ≡ 0) × (b ≡ 0)
or_digits_zero zero zero b h e = (refl, e)
or_digits_zero zero (suc a) b h e = absurd (omega arith)
or_digits_zero (suc n) zero b h e = (refl, e)
or_digits_zero (suc n) (suc a) b h e =
    let high = or_digits_zero n (suc a / 2) (b / 2) (omega arith) (omega arith) in
    (omega arith, omega arith)

pub bit_xor_zero : (a b : ℕ) → bit_xor a b ≡ 0 → a ≡ b
bit_xor_zero a b e = xor_digits_zero a a b (omega arith) (sym (λ i. bit_xor-bitwise a b i) ∙ e)

pub bit_or_zero : (a b : ℕ) → bit_or a b ≡ 0 → (a ≡ 0) × (b ≡ 0)
bit_or_zero a b e = or_digits_zero a a b (omega arith) (sym (λ i. bit_or-bitwise a b i) ∙ e)

pub bit_xor_self : (a b : ℕ) → a ≡ b → bit_xor a b ≡ 0
bit_xor_self a b e =
    ap (bit_xor a) (sym e) ∙ (λ i. bit_xor-bitwise a a i) ∙ xor_digits_self a a (omega arith)

bit_or_both : (a b : ℕ) → a ≡ 0 → b ≡ 0 → bit_or a b ≡ 0
bit_or_both a b e f = ap (λ x. bit_or x b) e ∙ ap (bit_or 0) f

-- An or with an exclusive or is 0 when the one is 0 and the two are equal.
pub or-xor_zero : (acc x y : ℕ) → (bit_or acc (bit_xor x y) == 0) ≡ (acc == 0 && x == y)
or-xor_zero acc x y = ground (
  arith,
  bit_or_zero acc (bit_xor x y),
  bit_xor_zero x y,
  bit_xor_self x y,
  bit_or_both acc (bit_xor x y),
)
