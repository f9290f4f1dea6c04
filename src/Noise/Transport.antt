-- ===== src/Noise/Transport.antt =====
-- src/noise.rs: the transport of a finished handshake, with the nonce in each datagram. The locks
-- around the counter and the window are not poisoned.
use zeronat.Base.{
  ℕ, ◌+◌, ◌*◌, ◌^◌, List, [], ◌++◌, Option, none, some, if◌then◌else◌, length, take, drop,
  replicate, ltb, inl, inr, ◌⊎◌, get_or, be32, u32_be, ◌==◌, ◌/◌,
}
use zeronat.Noise.Primitives.{Primitives}
use zeronat.Noise.Window.{ReplayWindow, empty_window, check_and_mark}
use zeronat.Noise.Symmetric.{
  Error, Keys, aead_seal, decrypt_failed, tag_len, nonce_exhausted, short_datagram, aead_open,
}

pub record StatelessNoise : Type 0 where
  pub send_key : List ℕ
  pub recv_key : List ℕ
  pub send_nonce : ℕ
  pub recv_window : ReplayWindow

unfoldable pub from_keys : Keys → StatelessNoise
from_keys k = record {
  send_key = k.send_key;
  recv_key = k.recv_key;
  send_nonce = 0;
  recv_window = empty_window;
}

unfoldable pub be64 : ℕ → List ℕ
be64 v = be32 (v / 2 ^ 32) ++ be32 v

-- `u64::from_be_bytes` of the first eight bytes
unfoldable pub u64_at : List ℕ → ℕ
u64_at b =
    u32_be (get_or b 0 0) (get_or b 1 0) (get_or b 2 0) (get_or b 3 0) * 2 ^ 32
    + u32_be (get_or b 4 0) (get_or b 5 0) (get_or b 6 0) (get_or b 7 0)

module _ (c : Primitives) where
  -- The body laid out in `out` from `at`, which has room for the nonce there.
  unfoldable pub seal_at : StatelessNoise → List ℕ → ℕ → StatelessNoise × (Error ⊎ List ℕ)
  seal_at s out at =
      let nonce = s.send_nonce in
      let (text, tag) = aead_seal c s.send_key nonce [] (drop (at + 8) out) in
      if nonce + 1 == 2 ^ 64
      then (s, inl nonce_exhausted)
      else (record s { send_nonce = nonce + 1 }, inr ((take at out ++ be64 nonce) ++ (text ++ tag)))

  unfoldable pub seal : StatelessNoise → List ℕ → StatelessNoise × (Error ⊎ List ℕ)
  seal s plaintext = seal_at s (replicate 8 0 ++ plaintext) 0

  abbrev pub after_check :
      StatelessNoise → List ℕ → ReplayWindow × Option Error → StatelessNoise × (Error ⊎ List ℕ)
  after_check s plaintext (w, none) = (record s { recv_window = w }, inr plaintext)
  after_check s plaintext (w, some e) = (record s { recv_window = w }, inl e)

  abbrev after_open : StatelessNoise → ℕ → Option (List ℕ) → StatelessNoise × (Error ⊎ List ℕ)
  after_open s nonce none = (s, inl decrypt_failed)
  after_open s nonce (some plaintext) = after_check s plaintext (check_and_mark s.recv_window nonce)

  -- `open_in_place`, with the plaintext that it returns
  unfoldable pub open_in_place : StatelessNoise → List ℕ → StatelessNoise × (Error ⊎ List ℕ)
  open_in_place s datagram =
      let nonce = u64_at datagram in
      if ltb (length datagram) (8 + tag_len)
      then (s, inl short_datagram)
      else after_open s nonce (aead_open c s.recv_key nonce [] (drop 8 datagram))
