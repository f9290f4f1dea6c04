-- ===== src/Base/Bytes.antt =====
-- Bytes as numbers below 256, and Rust's big-endian conversions.
use Prim.Native.Nat.{ℕ, ◌+◌, ◌*◌, ◌/◌, ◌%◌, ◌^◌, ◌<◌}
use mathlib.Core.Path.{◌≡◌, refl}
use mathlib.Core.Bool.{Bool, true, false, ◌&&◌}
use mathlib.Core.List.{List, [], ◌∷◌}
use native.Mathlib.Omega.{arith}
use zeronat.Base.Tests.{◌==◌}

abbrev pub IsByte : ℕ → Type 0
IsByte b = b < 256

abbrev pub u8_max : ℕ
u8_max = 255

abbrev pub u16_max : ℕ
u16_max = 65535

abbrev pub u32_max : ℕ
u32_max = 4294967295

-- `to_be_bytes`
abbrev pub be16 : ℕ → List ℕ
be16 v = v / 256 % 256 ∷ v % 256 ∷ []

abbrev pub be32 : ℕ → List ℕ
be32 v = v / 16777216 % 256 ∷ v / 65536 % 256 ∷ v / 256 % 256 ∷ v % 256 ∷ []

-- `from_be_bytes`
abbrev pub u16_be : ℕ → ℕ → ℕ
u16_be a b = a * 256 + b

abbrev pub u32_be : ℕ → ℕ → ℕ → ℕ → ℕ
u32_be a b c d = a * 16777216 + b * 65536 + c * 256 + d

-- Equality of byte strings.
abbrev pub beq_bytes : List ℕ → List ℕ → Bool
beq_bytes [] [] = true
beq_bytes [] (y ∷ ys) = false
beq_bytes (x ∷ xs) [] = false
beq_bytes (x ∷ xs) (y ∷ ys) = x == y && beq_bytes xs ys

pub u16_be-be16 : (v : ℕ) → v < 65536 → u16_be (v / 256 % 256) (v % 256) ≡ v
u16_be-be16 v h = omega arith

pub u32_be-be32 :
    (v : ℕ)
    → v < 2 ^ 32
    → u32_be (v / 16777216 % 256) (v / 65536 % 256) (v / 256 % 256) (v % 256) ≡ v
u32_be-be32 v h = omega arith

pub beq_bytes_refl : (b : List ℕ) → beq_bytes b b ≡ true
beq_bytes_refl [] = refl
beq_bytes_refl (x ∷ xs) = ground (arith, beq_bytes_refl xs)
