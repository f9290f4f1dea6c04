-- ===== src/Noise/Nn.antt =====
-- src/noise.rs: the NNpsk0 handshake, by its messages. The ephemeral private key, random bytes in
-- the source, is an argument.
use zeronat.Base.{
  ℕ, List, [], ◌∷◌, ◌++◌, Option, none, some, true, false, if◌then◌else◌, length, take, drop, ltb,
  inl, inr, ◌⊎◌,
}
use zeronat.Noise.Primitives.{Primitives}
use zeronat.Noise.Symmetric.{
  SymmetricState, Keys, Error, mix_key_and_hash, mix_key, dh_len, keys, two_too_short,
  one_too_short, mix_hash, encrypt_and_hash, new_state, decrypt_and_hash, pattern,
}
use zeronat.Noise.Preface.{proto_version}
use zeronat.Noise.Xx.{public_identity}

-- `STATELESS_PROLOGUE`
abbrev pub stateless_prologue : List ℕ
stateless_prologue = proto_version ∷ []

unfoldable pub nn_start : List ℕ → List ℕ → SymmetricState
nn_start psk prologue = mix_key_and_hash (mix_hash (new_state pattern) prologue) psk

module _ (c : Primitives) where
  -- The `ee` token, where the other ephemeral key is known.
  abbrev pub mix_ee : SymmetricState → List ℕ → Option (List ℕ) → SymmetricState
  mix_ee s e_priv none = s
  mix_ee s e_priv (some re) = mix_key s (c.x25519 e_priv re)

  unfoldable pub nn_write :
      SymmetricState → List ℕ → Option (List ℕ) → List ℕ → SymmetricState × List ℕ
  nn_write s e_priv re payload =
      let e_pub = public_identity c e_priv in
      let (s', ct) =
        encrypt_and_hash c (mix_ee (mix_key (mix_hash s e_pub) e_pub) e_priv re) payload in
      (s', e_pub ++ ct)

  abbrev pub with_remote :
      List ℕ → SymmetricState × (Error ⊎ List ℕ) → SymmetricState × (Error ⊎ (List ℕ × List ℕ))
  with_remote re (s, inl e) = (s, inl e)
  with_remote re (s, inr payload) = (s, inr (re, payload))

  abbrev pub mix_ee_read : SymmetricState → Option (List ℕ) → List ℕ → SymmetricState
  mix_ee_read s none re = s
  mix_ee_read s (some e_priv) re = mix_key s (c.x25519 e_priv re)

  unfoldable pub nn_read :
      SymmetricState
      → Option (List ℕ)
      → List ℕ
      → Error
      → SymmetricState × (Error ⊎ (List ℕ × List ℕ))
  nn_read s e_priv msg short =
      let re = take dh_len msg in
      let mixed = mix_ee_read (mix_key (mix_hash s re) re) e_priv re in
      if ltb (length msg) dh_len
      then (s, inl short)
      else with_remote re (decrypt_and_hash c mixed (drop dh_len msg))

  -- `initiate`, up to its first message.
  unfoldable pub initiate : List ℕ → List ℕ → List ℕ → List ℕ → SymmetricState × List ℕ
  initiate psk prologue e_priv payload1 = nn_write (nn_start psk prologue) e_priv none payload1

  abbrev pub initiated : SymmetricState × (Error ⊎ (List ℕ × List ℕ)) → Error ⊎ (Keys × List ℕ)
  initiated (s, inl e) = inl e
  initiated (s, inr (re, payload2)) = inr (keys s true, payload2)

  -- `initiate`, from the second message on: the keys and the payload of the message.
  unfoldable pub finish_initiate : SymmetricState → List ℕ → List ℕ → Error ⊎ (Keys × List ℕ)
  finish_initiate s e_priv msg2 = initiated (nn_read s (some e_priv) msg2 two_too_short)

  pub record Response : Type 0 where
    pub msg : List ℕ
    pub transport : Keys
    pub payload : List ℕ

  abbrev pub responded :
      List ℕ → List ℕ → SymmetricState × (Error ⊎ (List ℕ × List ℕ)) → Error ⊎ Response
  responded e_priv payload2 (s, inl e) = inl e
  responded e_priv payload2 (s, inr (re, payload1)) =
      (let (s', msg2) = nn_write s e_priv (some re) payload2 in
        inr (record { msg = msg2; transport = keys s' false; payload = payload1 }))

  -- `respond`: the second message, the keys and the payload of the first.
  unfoldable pub respond : List ℕ → List ℕ → List ℕ → List ℕ → List ℕ → Error ⊎ Response
  respond psk prologue e_priv payload2 msg1 =
      responded e_priv payload2 (nn_read (nn_start psk prologue) none msg1 one_too_short)
