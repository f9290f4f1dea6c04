-- ===== src/Noise/Agreement.antt =====
-- Two sides that read each other's messages agree.
use zeronat.Base.{
  ℕ, ◌+◌, ◌≡◌, List, ◌++◌, some, false, length, take, drop, inl, inr, arith, refl, ◌∙◌,
  length-append, take-append, drop-append, Option-cases, ltb, ◌-◌, take_front, drop_front,
  drop_behind,
}
use zeronat.Noise.Primitives.{Primitives, PrimitiveLaws}
use zeronat.Noise.Symmetric.{
  decrypt_and_hash, aead_open, aead_encrypt, encrypt_and_hash, aead_seal, SymmetricState,
  aead_nonce, mix_key, mix_hash,
}
use zeronat.Noise.Xx.{
  write_static, read_static, XxHandshake, public_identity, behind_static, write_message_one,
  write_message_two, write_message_three, read_message_one, read_message_two, read_message_three,
}

-- The laws of the primitives are those that their crates document.
module _ (c : Primitives) (l : PrimitiveLaws c) where
  open_text :
      (key : List ℕ) (n : ℕ) (ad body tag : List ℕ)
      → length tag ≡ 16
      → aead_open c key n ad (body ++ tag) ≡ c.decrypt key (aead_nonce n) ad body tag
  unfolding aead_open
  open_text key n ad body tag h =
      let longer : ltb (length (body ++ tag)) 16 ≡ false = ground (arith, length-append body tag) in
      let split : length (body ++ tag) - 16 ≡ length body = omega (arith, length-append body tag) in
      rw (longer, split, take-append body tag, drop-append body tag) refl

  pub open_seal :
      (key : List ℕ) (n : ℕ) (ad pt : List ℕ)
      → aead_open c key n ad (aead_encrypt c key n ad pt) ≡ some pt
  unfolding aead_encrypt aead_seal
  open_seal key n ad pt =
      let nonce = aead_nonce n in
      open_text key n ad _ _ (l.length_tag key nonce ad pt) ∙ l.decrypt-encrypt key nonce ad pt

  pub decrypt_and_hash-encrypt_and_hash :
      (s : SymmetricState) (pt : List ℕ)
      → let (s', ct) = encrypt_and_hash c s pt in decrypt_and_hash c s ct ≡ (s', inr pt)
  unfolding decrypt_and_hash encrypt_and_hash
  decrypt_and_hash-encrypt_and_hash s pt = elim (Option-cases s.k) [
    | inl e ↦ rw e refl
    | inr (k, e) ↦ rw (e, open_seal k s.n s.h pt) refl
  ]

  pub length-seal :
      (key : List ℕ) (n : ℕ) (ad pt : List ℕ) → length (aead_encrypt c key n ad pt) ≡ length pt + 16
  unfolding aead_encrypt aead_seal
  length-seal key n ad pt =
      let nonce = aead_nonce n in
      omega (
        arith,
        length-append (c.encrypt key nonce ad pt).0 (c.encrypt key nonce ad pt).1,
        l.length_tag key nonce ad pt,
        l.length_text key nonce ad pt,
      )

  -- Under a key, a sealed text is longer by a tag.
  length-encrypt_and_hash :
      (s : SymmetricState) (k pt : List ℕ)
      → s.k ≡ some k
      → length (encrypt_and_hash c s pt).1 ≡ length pt + 16
  unfolding encrypt_and_hash
  length-encrypt_and_hash s k pt e = rw e (length-seal k s.n s.h pt)

  read_static-encrypt :
      (s : SymmetricState) (pt : List ℕ)
      → length pt ≡ 32
      → let (s', ct) = encrypt_and_hash c s pt in read_static c s ct ≡ (s', inr pt)
  unfolding read_static
  read_static-encrypt s pt h = rw (decrypt_and_hash-encrypt_and_hash s pt, h) refl

  pub length-public : (p : List ℕ) → length (public_identity c p) ≡ 32
  unfolding public_identity
  length-public p = l.length-x25519 p c.base_point

  -- The static key and the payload behind it are read back, and both sides go on in one state.
  behind-write_static :
      (w r : XxHandshake) (k payload : List ℕ)
      → w.ss ≡ r.ss
      → w.ss.k ≡ some k
      → c.x25519 w.s_priv w.re ≡ c.x25519 r.e_priv (public_identity c w.s_priv)
      → let (w', msg) = write_static c w payload in
        behind_static c r (drop 48 msg) (read_static c r.ss (take 48 msg))
        ≡ (record r { ss = w'.ss; rs = some (public_identity c w.s_priv) }, inr payload)
  unfolding write_static
  behind-write_static w r k payload e has_key x =
      let s_pub = public_identity c w.s_priv in
      let (s1, sealed) = encrypt_and_hash c w.ss s_pub in
      let (s2, ct) = encrypt_and_hash c (mix_key s1 (c.x25519 w.s_priv w.re)) payload in
      let short : length s_pub ≡ 32 = length-public w.s_priv in
      let long : length sealed ≡ 48 =
        omega (arith, length-encrypt_and_hash w.ss k s_pub has_key, short) in
      rw
        (
          take_front 48 sealed ct long,
          drop_front 48 sealed ct long,
          ← e,
          read_static-encrypt w.ss s_pub short,
          ← x,
          decrypt_and_hash-encrypt_and_hash (mix_key s1 (c.x25519 w.s_priv w.re)) payload,
        )
        refl

  length-write_static :
      (w : XxHandshake) (k payload : List ℕ)
      → w.ss.k ≡ some k
      → length (write_static c w payload).1 ≡ 64 + length payload
  unfolding write_static mix_key
  length-write_static w k payload e =
      let s_pub = public_identity c w.s_priv in
      let (s1, sealed) = encrypt_and_hash c w.ss s_pub in
      let s2 = mix_key s1 (c.x25519 w.s_priv w.re) in
      omega (
        arith,
        length-append sealed (encrypt_and_hash c s2 payload).1,
        length-encrypt_and_hash w.ss k s_pub e,
        length-encrypt_and_hash s2 _ payload refl,
        length-public w.s_priv,
      )

  -- A side reads the message of another whose state agrees with its own.
  pub read-write_one :
      (w r : XxHandshake) (payload : List ℕ)
      → w.ss ≡ r.ss
      → length w.e_pub ≡ 32
      → let (w', msg) = write_message_one c w payload in
        read_message_one c r msg ≡ (record r { re = w.e_pub; ss = w'.ss }, inr payload)
  unfolding write_message_one read_message_one
  read-write_one w r payload e h =
      let (s, ct) = encrypt_and_hash c (mix_hash w.ss w.e_pub) payload in
      let long : ltb (length (w.e_pub ++ ct)) 32 ≡ false =
        ground (arith, length-append w.e_pub ct) in
      rw
        (
          long,
          take_front 32 w.e_pub ct h,
          drop_front 32 w.e_pub ct h,
          ← e,
          decrypt_and_hash-encrypt_and_hash (mix_hash w.ss w.e_pub) payload,
        )
        refl

  pub read-write_two :
      (w r : XxHandshake) (payload : List ℕ)
      → w.ss ≡ r.ss
      → length w.e_pub ≡ 32
      → c.x25519 w.e_priv w.re ≡ c.x25519 r.e_priv w.e_pub
      → c.x25519 w.s_priv w.re ≡ c.x25519 r.e_priv (public_identity c w.s_priv)
      → let (w', msg) = write_message_two c w payload in
        read_message_two c r msg ≡ (
          record r { re = w.e_pub; ss = w'.ss; rs = some (public_identity c w.s_priv) },
          inr payload,
        )
  unfolding write_message_two read_message_two mix_key
  read-write_two w r payload e h x y =
      let w2 : XxHandshake = record w {
        ss = mix_key (mix_hash w.ss w.e_pub) (c.x25519 w.e_priv w.re);
      } in
      let rest = (write_static c w2 payload).1 in
      let r2 : XxHandshake = record r {
        re = w.e_pub;
        ss = mix_key (mix_hash r.ss w.e_pub) (c.x25519 r.e_priv w.e_pub);
      } in
      let long : ltb (length (w.e_pub ++ rest)) 96 ≡ false =
        ground (arith, length-append w.e_pub rest, length-write_static w2 _ payload refl) in
      rw
        (
          long,
          take_front 32 w.e_pub rest h,
          drop_front 32 w.e_pub rest h,
          drop_behind 80 48 w.e_pub rest (omega arith),
        )
        (behind-write_static w2 r2 _ payload (λ i. mix_key (mix_hash (e i) w.e_pub) (x i)) refl y)

  pub read-write_three :
      (w r : XxHandshake) (k payload : List ℕ)
      → w.ss ≡ r.ss
      → w.ss.k ≡ some k
      → c.x25519 w.s_priv w.re ≡ c.x25519 r.e_priv (public_identity c w.s_priv)
      → let (w', msg) = write_message_three c w payload in
        read_message_three c r msg
        ≡ (record r { ss = w'.ss; rs = some (public_identity c w.s_priv) }, inr payload)
  unfolding write_message_three read_message_three
  read-write_three w r k payload e has_key y =
      let msg = (write_static c w payload).1 in
      let long : ltb (length msg) 64 ≡ false =
        ground (arith, length-write_static w k payload has_key) in
      rw long (behind-write_static w r k payload e has_key y)
