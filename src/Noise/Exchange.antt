-- ===== src/Noise/Exchange.antt =====
-- A whole XX handshake over a channel that delivers each message.
use zeronat.Base.{ℕ, ◌≡◌, List, some, true, false, inr, refl, ◌⊎◌, get_or, Option-cases, inl, []}
use zeronat.Noise.Primitives.{Primitives, PrimitiveLaws}
use zeronat.Noise.Xx.{
  XxHandshake, new, write_message_one, read_message_one, public_identity, write_message_two,
  read_message_two, write_message_three, read_message_three, write_static,
}
use zeronat.Noise.Symmetric.{Error, keys, encrypt_and_hash, mix_hash, mix_key, SymmetricState, hkdf}
use zeronat.Noise.Agreement.{read-write_one, length-public, read-write_two, read-write_three}

-- What the two sides have at the end, and what each has read.
pub record Exchange : Type 0 where
  pub initiator : XxHandshake
  pub responder : XxHandshake
  pub read_one : Error ⊎ List ℕ
  pub read_two : Error ⊎ List ℕ
  pub read_three : Error ⊎ List ℕ

module _ (c : Primitives) where
  -- Each side writes its messages and reads those of the other, in the order of the pattern.
  unfoldable pub exchange : XxHandshake → XxHandshake → List ℕ → List ℕ → List ℕ → Exchange
  exchange i r p1 p2 p3 =
      let (i1, m1) = write_message_one c i p1 in
      let (r1, got1) = read_message_one c r m1 in
      let (r2, m2) = write_message_two c r1 p2 in
      let (i2, got2) = read_message_two c i1 m2 in
      let (i3, m3) = write_message_three c i2 p3 in
      let (r3, got3) = read_message_three c r2 m3 in
      record { initiator = i3; responder = r3; read_one = got1; read_two = got2; read_three = got3 }

encrypt_keeps_key :
    (c : Primitives) (s : SymmetricState) (pt : List ℕ) → (encrypt_and_hash c s pt).0.k ≡ s.k
unfolding encrypt_and_hash mix_hash
encrypt_keeps_key c s pt = elim (Option-cases s.k) [ inl e ↦ rw e refl | inr (k, e) ↦ rw e refl ]

-- Message two leaves a key.
two_key : Primitives → XxHandshake → List ℕ → List ℕ
two_key c w payload =
    let (s1, sealed) =
      encrypt_and_hash c (mix_key (mix_hash w.ss w.e_pub) (c.x25519 w.e_priv w.re))
        (public_identity c w.s_priv) in
    get_or (hkdf s1.ck (c.x25519 w.s_priv w.re) 2) 1 []

two-has_key :
    (c : Primitives) (w : XxHandshake) (payload : List ℕ)
    → (write_message_two c w payload).0.ss.k ≡ some (two_key c w payload)
unfolding write_message_two write_static two_key mix_key
two-has_key c w payload = encrypt_keeps_key c _ payload

exchange_steps :
    (c : Primitives) (i r : XxHandshake) (p1 p2 p3 : List ℕ) (r1 i2 r3 : XxHandshake)
    → read_message_one c r (write_message_one c i p1).1 ≡ (r1, inr p1)
    → read_message_two c (write_message_one c i p1).0 (write_message_two c r1 p2).1 ≡ (i2, inr p2)
    → read_message_three c (write_message_two c r1 p2).0 (write_message_three c i2 p3).1
      ≡ (r3, inr p3)
    → exchange c i r p1 p2 p3 ≡ record {
      initiator = (write_message_three c i2 p3).0;
      responder = r3;
      read_one = inr p1;
      read_two = inr p2;
      read_three = inr p3;
    }
unfolding exchange
exchange_steps c i r p1 p2 p3 r1 i2 r3 e1 e2 e3 = rw (e1, e2, e3) refl

-- Let the primitives have the laws of their crates. If an initiator and a responder start with the same
-- prologue and each message is delivered, each side reads the payloads that the other wrote, knows the
-- other's static public key, and the transport keys of the two sides match in both directions.
pub exchange_agrees :
    (c : Primitives) (l : PrimitiveLaws c) (si ei sr er prologue p1 p2 p3 : List ℕ)
    → let x = exchange c (new c true si prologue ei) (new c false sr prologue er) p1 p2 p3 in
      let ours = keys x.initiator.ss x.initiator.initiator in
      let theirs = keys x.responder.ss x.responder.initiator in
      (x.read_one ≡ inr p1)
      × (x.read_two ≡ inr p2)
      × (x.read_three ≡ inr p3)
      × (x.initiator.rs ≡ some (public_identity c sr))
      × (x.responder.rs ≡ some (public_identity c si))
      × (ours.send_key ≡ theirs.recv_key)
      × (ours.recv_key ≡ theirs.send_key)
unfolding new keys write_message_one write_message_two write_message_three write_static
    public_identity
exchange_agrees c l si ei sr er prologue p1 p2 p3 =
    let i = new c true si prologue ei in
    let r = new c false sr prologue er in
    let w1 = (write_message_one c i p1).0 in
    let r1 : XxHandshake = record r { re = public_identity c ei; ss = w1.ss } in
    let e1 = read-write_one c l i r p1 refl (length-public c l ei) in
    let w2 = (write_message_two c r1 p2).0 in
    let i2 : XxHandshake = record w1 {
      re = public_identity c er;
      ss = w2.ss;
      rs = some (public_identity c sr);
    } in
    let e2 =
      read-write_two c l r1 w1 p2 refl (length-public c l er) (l.x25519_comm er ei)
        (l.x25519_comm sr ei) in
    let e3 =
      read-write_three c l i2 w2 (two_key c r1 p2) p3 refl (two-has_key c r1 p2)
        (l.x25519_comm si er) in
    rw (exchange_steps c i r p1 p2 p3 _ _ _ e1 e2 e3) (refl, refl, refl, refl, refl, refl, refl)
