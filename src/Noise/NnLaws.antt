-- ===== src/Noise/NnLaws.antt =====
-- Two sides of the NNpsk0 handshake with the same key agree.
use zeronat.Base.{
  ℕ, ◌≡◌, List, ◌++◌, Option, none, some, true, false, length, inr, arith, refl, ap, length-append,
  ltb, take_front, drop_front,
}
use zeronat.Noise.Primitives.{Primitives, PrimitiveLaws}
use zeronat.Noise.Nn.{
  initiate, nn_read, nn_write, respond, finish_initiate, mix_ee, mix_ee_read, Response, nn_start,
  responded, initiated,
}
use zeronat.Noise.Symmetric.{
  SymmetricState, Error, keys, mix_key, Keys, mix_hash, encrypt_and_hash, one_too_short,
  two_too_short,
}
use zeronat.Noise.Xx.{public_identity}
use zeronat.Noise.Agreement.{length-public, decrypt_and_hash-encrypt_and_hash}

nn_read-nn_write :
    (c : Primitives) (l : PrimitiveLaws c) (s : SymmetricState) (e_priv : List ℕ)
    (re ours : Option (List ℕ)) (payload : List ℕ) (short : Error)
    → ((t : SymmetricState)
        → mix_ee c t e_priv re ≡ mix_ee_read c t ours (public_identity c e_priv))
    → let (s', msg) = nn_write c s e_priv re payload in
      nn_read c s ours msg short ≡ (s', inr (public_identity c e_priv, payload))
unfolding nn_read nn_write
nn_read-nn_write c l s e_priv re ours payload short same =
    let e_pub = public_identity c e_priv in
    let mixed = mix_key (mix_hash s e_pub) e_pub in
    let sent = mix_ee c mixed e_priv re in
    let ct = (encrypt_and_hash c sent payload).1 in
    let h = length-public c l e_priv in
    let long : ltb (length (e_pub ++ ct)) 32 ≡ false = ground (arith, length-append e_pub ct, h) in
    rw
      (
        long,
        take_front 32 e_pub ct h,
        drop_front 32 e_pub ct h,
        ← same mixed,
        decrypt_and_hash-encrypt_and_hash c l sent payload,
      )
      refl

-- Let the primitives have the laws of their crates. If both sides have the same key and prologue, the
-- responder reads the initiator's payload and answers, the initiator reads the answer's payload, and
-- the transport keys of the two sides match in both directions.
pub respond-initiate :
    (c : Primitives) (l : PrimitiveLaws c) (psk prologue ei er p1 p2 : List ℕ)
    → let (s, msg1) = initiate c psk prologue ei p1 in
      (r : Response c) × (ours : Keys) × (respond c psk prologue er p2 msg1 ≡ inr r)
      × (r.payload ≡ p1)
      × (finish_initiate c s ei r.msg ≡ inr (ours, p2))
      × (ours.send_key ≡ r.transport.recv_key)
      × (ours.recv_key ≡ r.transport.send_key)
unfolding initiate respond finish_initiate keys public_identity
respond-initiate c l psk prologue ei er p1 p2 =
    let (s, msg1) = nn_write c (nn_start psk prologue) ei none p1 in
    let (s2, msg2) = nn_write c s er (some (public_identity c ei)) p2 in
    let r : Response c = record { msg = msg2; transport = keys s2 false; payload = p1 } in
    let first =
      nn_read-nn_write c l (nn_start psk prologue) ei none none p1 one_too_short (λ t. refl) in
    let second =
      nn_read-nn_write c l s er (some (public_identity c ei)) (some ei) p2 two_too_short
        (λ t. ap (mix_key t) (l.x25519_comm er ei)) in
    (r, keys s2 true, ap (responded c er p2) first, refl, ap (initiated c) second, refl, refl)
