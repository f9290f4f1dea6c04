-- ===== src/Noise/Primitives.antt =====
-- What src/noise.rs takes from the crates x25519-dalek and chacha20poly1305, as operations and the
-- laws that they document.
use zeronat.Base.{ℕ, List, ◌≡◌, Option, some, length}

pub record Primitives : Type 0 where
  -- the product of a private key and a point
  pub x25519 : List ℕ → List ℕ → List ℕ
  pub base_point : List ℕ
  -- under a key, a nonce of 12 bytes and associated data: the ciphertext and its tag
  pub encrypt : List ℕ → List ℕ → List ℕ → List ℕ → List ℕ × List ℕ
  -- the same with the tag behind the ciphertext: nothing where the tag does not fit
  pub decrypt : List ℕ → List ℕ → List ℕ → List ℕ → List ℕ → Option (List ℕ)

pub record PrimitiveLaws (c : Primitives) : Type 0 where
  pub x25519_comm :
      (a b : List ℕ) → c.x25519 a (c.x25519 b c.base_point) ≡ c.x25519 b (c.x25519 a c.base_point)
  pub length-x25519 : (a p : List ℕ) → length (c.x25519 a p) ≡ 32
  pub length_tag : (k n ad pt : List ℕ) → length (c.encrypt k n ad pt).1 ≡ 16
  pub length_text : (k n ad pt : List ℕ) → length (c.encrypt k n ad pt).0 ≡ length pt
  pub decrypt-encrypt :
      (k n ad pt : List ℕ)
      → let sealed = c.encrypt k n ad pt in c.decrypt k n ad sealed.0 sealed.1 ≡ some pt
