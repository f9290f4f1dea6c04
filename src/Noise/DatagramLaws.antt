-- ===== src/Noise/DatagramLaws.antt =====
-- src/dgram.rs: what a receiver makes of the datagrams that come, and of those that a sender queues.
use zeronat.Base.{
  ℕ, suc, zero, ◌+◌, ◌≡◌, ◌≤◌, ◌<◌, ◌^◌, ◌∙◌, sym, List, [], ◌∷◌, ◌++◌, Option, none, some, length,
  ◌⊎◌, inl, inr, be32, refl, arith, true, false, ◌==◌, drop, ap, Option-cases,
}
use zeronat.Noise.Primitives.{Primitives, PrimitiveLaws}
use zeronat.Noise.Symmetric.{Error, aead_encrypt}
use zeronat.Noise.Transport.{StatelessNoise, seal_at, open_in_place}
use zeronat.Noise.Delivery.{sealed, seal-sealed, open_in_place-seal}
use zeronat.Noise.Replay.{admits, Refines}
use zeronat.Noise.Datagram.{
  recv, recv_loop, next_plaintext, received_plaintext, frame_of, after_next, pass_or_take, DgramTx,
  queued, send_datagram, frame_packet, data_frame, class_dgram, queue_packet,
}

unfoldable pub read_plaintext : {A : Type 0} → (List ℕ → Option A) → Option (List ℕ) → Option A
read_plaintext read none = none
read_plaintext read (some p) = read p

module _ (c : Primitives) where
  -- A receiver that looks at one datagram after another, until one gives what it reads.
  unfoldable pub recv_each :
      {A : Type 0}
      → (List ℕ → Option A)
      → StatelessNoise
      → List (List ℕ)
      → StatelessNoise × List (List ℕ) × Option A
  recv_each read s [] = (s, [], none)
  recv_each read s (d ∷ ds) =
      let out = open_in_place c s d in
      pass_or_take out.0 ds (recv_each read out.0 ds)
        (read_plaintext read (received_plaintext c out.1))

  next-drops :
      (s : StatelessNoise) (d : List ℕ) (ds : List (List ℕ))
      → received_plaintext c (open_in_place c s d).1 ≡ none
      → next_plaintext c s (d ∷ ds) ≡ next_plaintext c (open_in_place c s d).0 ds
  unfolding next_plaintext
  next-drops s d ds e =
      let out = open_in_place c s d in ap (pass_or_take out.0 ds (next_plaintext c out.0 ds)) e

  next-takes :
      (s : StatelessNoise) (d : List ℕ) (ds : List (List ℕ)) (p : List ℕ)
      → received_plaintext c (open_in_place c s d).1 ≡ some p
      → next_plaintext c s (d ∷ ds) ≡ ((open_in_place c s d).0, ds, some p)
  unfolding next_plaintext
  next-takes s d ds p e =
      let out = open_in_place c s d in ap (pass_or_take out.0 ds (next_plaintext c out.0 ds)) e

  loop_each :
      {A : Type 0} (read : List ℕ → Option A) (fuel : ℕ) (s : StatelessNoise) (ds : List (List ℕ))
      → length ds ≤ fuel
      → recv_loop c read fuel s ds ≡ recv_each read s ds
  unfolding recv_loop recv_each next_plaintext read_plaintext
  loop_each read zero s [] h = refl
  loop_each read (suc fuel) s [] h = refl
  loop_each read zero s (d ∷ ds) h = absurd (omega (arith, h))
  loop_each read (suc fuel) s (d ∷ ds) h =
      let out = open_in_place c s d in
      let continue = after_next read (recv_loop c read fuel) in
      let each = λ (x : Option (List ℕ)).
        pass_or_take out.0 ds (recv_each read out.0 ds) (read_plaintext read x) in
      elim (Option-cases (received_plaintext c out.1)) [
        | inl e ↦
            ap continue (next-drops s d ds e)
            ∙ loop_each read (suc fuel) out.0 ds (omega arith)
            ∙ sym (ap each e)
        | inr (p, e) ↦
            ap continue (next-takes s d ds p e)
            ∙ ap (λ x. pass_or_take out.0 ds x (read p))
                (loop_each read fuel out.0 ds (omega arith))
            ∙ sym (ap each e)
      ]

  pub recv_lem : (s : StatelessNoise) (ds : List (List ℕ)) → recv c s ds ≡ recv_each frame_of s ds
  unfolding recv
  recv_lem s ds = loop_each frame_of (length ds) s ds (omega arith)

unfoldable pub packet : Primitives → DgramTx → List ℕ → List ℕ
packet c tx datagram = ((class_dgram ∷ []) ++ be32 tx.tag) ++ sealed c tx.noise (0 ∷ datagram)

send-packet :
    (c : Primitives) (tx : DgramTx) (datagram : List ℕ)
    → tx.noise.send_nonce + 1 < 2 ^ 64
    → send_datagram c queued tx datagram ≡ (
      record tx { noise = record tx.noise { send_nonce = tx.noise.send_nonce + 1 } },
      inr (some (packet c tx datagram)),
    )
unfolding send_datagram frame_packet seal_at sealed aead_encrypt queue_packet packet
send-packet c tx datagram h =
    let room : (tx.noise.send_nonce + 1 == 2 ^ 64) ≡ false = ground arith in rw room refl

-- A datagram that opens to data is received as data, and what is behind it is left.
receives :
    (c : Primitives) (s : StatelessNoise) (d datagram : List ℕ) (ds : List (List ℕ))
    → (open_in_place c s d).1 ≡ inr (0 ∷ datagram)
    → recv c s (d ∷ ds) ≡ ((open_in_place c s d).0, ds, some (data_frame datagram))
unfolding recv_each read_plaintext frame_of
receives c s d datagram ds e =
    let out = open_in_place c s d in
    recv_lem c s (d ∷ ds)
    ∙ ap
        (λ (x : Error ⊎ List ℕ).
          pass_or_take out.0 ds (recv_each c frame_of out.0 ds)
            (read_plaintext frame_of (received_plaintext c x)))
        e

passes :
    (c : Primitives) (s : StatelessNoise) (d : List ℕ) (ds : List (List ℕ)) (e : Error)
    → (open_in_place c s d).1 ≡ inl e
    → recv c s (d ∷ ds) ≡ recv c (open_in_place c s d).0 ds
unfolding recv_each read_plaintext
passes c s d ds e h =
    let out = open_in_place c s d in
    recv_lem c s (d ∷ ds)
    ∙ ap
        (λ (x : Error ⊎ List ℕ).
          pass_or_take out.0 ds (recv_each c frame_of out.0 ds)
            (read_plaintext frame_of (received_plaintext c x)))
        h
    ∙ sym (recv_lem c out.0 ds)

-- Let the primitives have the laws of their crates. If the sender seals under the key that the receiver
-- opens with, before its last nonce, the receiver's window admits the nonce, and the queue of the socket
-- writer has room, then a datagram is queued as a packet whose body is received as that
-- datagram, whatever is behind it, and when the same body comes again, it is passed over.
pub recv-send_datagram :
    (c : Primitives) (l : PrimitiveLaws c) (tx : DgramTx) (r : StatelessNoise) (accepted : List ℕ)
    (datagram : List ℕ) (ds : List (List ℕ))
    → tx.noise.send_key ≡ r.recv_key
    → tx.noise.send_nonce + 1 < 2 ^ 64
    → Refines r.recv_window accepted
    → admits accepted tx.noise.send_nonce ≡ true
    → (pkt : List ℕ) × ((send_datagram c queued tx datagram).1 ≡ inr (some pkt))
      × (let out = recv c r (drop 5 pkt ∷ ds) in
          (out.1 ≡ ds)
          × (out.2 ≡ some (data_frame datagram))
          × (recv c out.0 (drop 5 pkt ∷ ds) ≡ recv c (open_in_place c out.0 (drop 5 pkt)).0 ds))
unfolding packet
recv-send_datagram c l tx r accepted datagram ds k h w a =
    let text = 0 ∷ datagram in
    let body = sealed c tx.noise text in
    let (d, e, (opened, held, (error, again))) =
      open_in_place-seal c l tx.noise r accepted text k h w a in
    let same : d ≡ body = cc (e, seal-sealed c tx.noise text h) in
    let first : (open_in_place c r body).1 ≡ inr text =
      ap (λ x. (open_in_place c r x).1) (sym same) ∙ opened in
    let twice : (open_in_place c (open_in_place c r body).0 body).1 ≡ inl error =
      ap (λ x. (open_in_place c (open_in_place c r x).0 x).1) (sym same) ∙ again in
    (
      packet c tx datagram,
      ap (λ x. x.1) (send-packet c tx datagram h),
      rw (receives c r body datagram ds first)
          (refl, refl, passes c (open_in_place c r body).0 body ds error twice),
    )
