-- ===== src/Noise/Xx.antt =====
-- src/noise.rs: one side of the XX handshake. The ephemeral private key, random bytes in the
-- source, is an argument.
use zeronat.Base.{
  ℕ, ◌+◌, ◌*◌, List, ◌++◌, Option, none, some, Bool, if◌then◌else◌, length, take, drop, replicate,
  ltb, inl, inr, ◌⊎◌, ◌==◌,
}
use zeronat.Noise.Primitives.{Primitives}
use zeronat.Noise.Symmetric.{
  encrypt_and_hash, mix_hash, mix_key, SymmetricState, Error, new_state, decrypt_and_hash, dh_len,
  xx_pattern, one_too_short, invalid_static, tag_len, two_too_short, three_too_short,
}

pub record XxHandshake : Type 0 where
  pub ss : SymmetricState
  pub initiator : Bool
  pub s_priv : List ℕ
  pub e_priv : List ℕ
  pub e_pub : List ℕ
  pub re : List ℕ
  pub rs : Option (List ℕ)

module _ (c : Primitives) where
  unfoldable pub public_identity : List ℕ → List ℕ
  public_identity private_key = c.x25519 private_key c.base_point

  unfoldable pub new : Bool → List ℕ → List ℕ → List ℕ → XxHandshake
  new initiator static_private prologue e_priv = record {
    ss = mix_hash (new_state xx_pattern) prologue;
    initiator = initiator;
    s_priv = static_private;
    e_priv = e_priv;
    e_pub = public_identity e_priv;
    re = replicate dh_len 0;
    rs = none;
  }

  unfoldable pub write_message_one : XxHandshake → List ℕ → XxHandshake × List ℕ
  write_message_one x payload =
      let (ss, ct) = encrypt_and_hash c (mix_hash x.ss x.e_pub) payload in
      (record x { ss = ss }, x.e_pub ++ ct)

  -- The payload of a message whose tokens are read.
  abbrev pub read_payload : XxHandshake → List ℕ → XxHandshake × (Error ⊎ List ℕ)
  read_payload x ct = let (ss, r) = decrypt_and_hash c x.ss ct in (record x { ss = ss }, r)

  unfoldable pub read_message_one : XxHandshake → List ℕ → XxHandshake × (Error ⊎ List ℕ)
  read_message_one x msg =
      let re = take dh_len msg in
      if ltb (length msg) dh_len
      then (x, inl one_too_short)
      else read_payload (record x { re = re; ss = mix_hash x.ss re }) (drop dh_len msg)

  -- The static key of this side, sealed, and the payload under the key that it adds.
  unfoldable pub write_static : XxHandshake → List ℕ → XxHandshake × List ℕ
  write_static x payload =
      let (s1, sealed) = encrypt_and_hash c x.ss (public_identity x.s_priv) in
      let (s2, ct) = encrypt_and_hash c (mix_key s1 (c.x25519 x.s_priv x.re)) payload in
      (record x { ss = s2 }, sealed ++ ct)

  unfoldable pub write_message_two : XxHandshake → List ℕ → XxHandshake × List ℕ
  write_message_two x payload =
      let ss = mix_key (mix_hash x.ss x.e_pub) (c.x25519 x.e_priv x.re) in
      let (x', rest) = write_static (record x { ss = ss }) payload in (x', x.e_pub ++ rest)

  abbrev pub of_length : SymmetricState × (Error ⊎ List ℕ) → SymmetricState × (Error ⊎ List ℕ)
  of_length (s, inl e) = (s, inl e)
  of_length (s, inr key) = if length key == dh_len then (s, inr key) else (s, inl invalid_static)

  unfoldable pub read_static : SymmetricState → List ℕ → SymmetricState × (Error ⊎ List ℕ)
  read_static s ct = of_length (decrypt_and_hash c s ct)

  -- Behind the static key: the key that it adds and the payload.
  abbrev pub behind_static :
      XxHandshake → List ℕ → SymmetricState × (Error ⊎ List ℕ) → XxHandshake × (Error ⊎ List ℕ)
  behind_static x ct (s, inl e) = (record x { ss = s }, inl e)
  behind_static x ct (s, inr rs) =
      read_payload (record x { ss = mix_key s (c.x25519 x.e_priv rs); rs = some rs }) ct

  unfoldable pub read_message_two : XxHandshake → List ℕ → XxHandshake × (Error ⊎ List ℕ)
  read_message_two x msg =
      let re = take dh_len msg in
      let ss = mix_key (mix_hash x.ss re) (c.x25519 x.e_priv re) in
      if ltb (length msg) (2 * dh_len + 2 * tag_len)
      then (x, inl two_too_short)
      else behind_static (record x { re = re; ss = ss }) (drop (dh_len + dh_len + tag_len) msg)
          (read_static ss (take (dh_len + tag_len) (drop dh_len msg)))

  unfoldable pub write_message_three : XxHandshake → List ℕ → XxHandshake × List ℕ
  write_message_three x payload = write_static x payload

  unfoldable pub read_message_three : XxHandshake → List ℕ → XxHandshake × (Error ⊎ List ℕ)
  read_message_three x msg =
      if ltb (length msg) (dh_len + 2 * tag_len)
      then (x, inl three_too_short)
      else behind_static x (drop (dh_len + tag_len) msg)
          (read_static x.ss (take (dh_len + tag_len) msg))
