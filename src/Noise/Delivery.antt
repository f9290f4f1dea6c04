-- ===== src/Noise/Delivery.antt =====
-- What one side seals, the other opens once.
use mathlib.Core.Path.{subst}
use zeronat.Base.{
  drop_front, ◌==◌, ◌||◌, Bool-cases, ℕ, ◌+◌, ◌≡◌, ◌<◌, ◌^◌, List, [], ◌∷◌, ◌++◌, Option, none,
  some, true, false, length, inl, inr, arith, refl, sym, ◌∙◌, length-append, ltb,
}
use zeronat.Noise.Primitives.{Primitives, PrimitiveLaws}
use zeronat.Noise.Transport.{
  StatelessNoise, seal, open_in_place, u64_at, be64, seal_at, after_check,
}
use zeronat.Noise.Symmetric.{aead_encrypt, Error}
use zeronat.Noise.Window.{check_and_mark, ReplayWindow}
use zeronat.Noise.Agreement.{length-seal, open_seal}
use zeronat.Noise.Replay.{Refines, elem, admits}
use zeronat.Noise.Refinement.{accepts, with_next, admits_fresh, check_and_mark-Refines}

pub u64_at-be64 : (v : ℕ) (more : List ℕ) → v < 2 ^ 64 → u64_at (be64 v ++ more) ≡ v
unfolding u64_at be64
u64_at-be64 v more h = omega arith

pub length-be64 : (v : ℕ) → length (be64 v) ≡ 8
unfolding be64
length-be64 v = refl

pub length-be64_append : (v : ℕ) (more : List ℕ) → length (be64 v ++ more) ≡ 8 + length more
length-be64_append v more = omega (arith, length-append (be64 v) more, length-be64 v)

unfoldable pub sealed : Primitives → StatelessNoise → List ℕ → List ℕ
sealed c s plaintext = be64 s.send_nonce ++ aead_encrypt c s.send_key s.send_nonce [] plaintext

pub seal-sealed :
    (c : Primitives) (s : StatelessNoise) (plaintext : List ℕ)
    → s.send_nonce + 1 < 2 ^ 64
    → seal c s plaintext ≡ (record s { send_nonce = s.send_nonce + 1 }, inr (sealed c s plaintext))
unfolding seal seal_at sealed aead_encrypt
seal-sealed c s plaintext h =
    let room : (s.send_nonce + 1 == 2 ^ 64) ≡ false = ground arith in rw room refl

-- A sealed datagram is opened to its text if the window takes its nonce.
open-sealed :
    (c : Primitives) (l : PrimitiveLaws c) (s r : StatelessNoise) (plaintext : List ℕ)
    → s.send_key ≡ r.recv_key
    → s.send_nonce < 2 ^ 64
    → open_in_place c r (sealed c s plaintext)
      ≡ after_check c r plaintext (check_and_mark r.recv_window s.send_nonce)
unfolding open_in_place sealed
open-sealed c l s r plaintext k h =
    let text = aead_encrypt c s.send_key s.send_nonce [] plaintext in
    let long : ltb (length (be64 s.send_nonce ++ text)) 24 ≡ false = ground (
      arith,
      length-be64_append s.send_nonce text,
      length-seal c l s.send_key s.send_nonce [] plaintext,
    ) in
    rw
      (
        long,
        u64_at-be64 s.send_nonce text h,
        ← k,
        drop_front 8 (be64 s.send_nonce) text (length-be64 s.send_nonce),
        open_seal c l s.send_key s.send_nonce [] plaintext,
      )
      refl

-- What follows a nonce that the rule admits, and one that it does not.
admitted :
    (c : Primitives) (r : StatelessNoise) (accepted plaintext : List ℕ) (n : ℕ)
    → Refines r.recv_window accepted
    → admits accepted n ≡ true
    → let out = after_check c r plaintext (check_and_mark r.recv_window n) in
      (out.1 ≡ inr plaintext)
      × Refines out.0.recv_window (n ∷ accepted)
      × (out.0.recv_key ≡ r.recv_key)
unfolding with_next accepts
admitted c r accepted plaintext n w a =
    let next = check_and_mark-Refines r.recv_window accepted n w in
    let is_next : with_next accepted n ≡ n ∷ accepted = rw a refl in
    of_result (check_and_mark r.recv_window n) (next.0 ∙ a)
      (subst (Refines (check_and_mark r.recv_window n).0) is_next next.1)
  where
    of_result :
        (out : ReplayWindow × Option Error)
        → accepts out.1 ≡ true
        → Refines out.0 (n ∷ accepted)
        → let x = after_check c r plaintext out in
          (x.1 ≡ inr plaintext)
          × Refines x.0.recv_window (n ∷ accepted)
          × (x.0.recv_key ≡ r.recv_key)
    of_result (w', none) e q = (refl, q, refl)
    of_result (w', some x) e q = absurd cc

refused :
    (c : Primitives) (r : StatelessNoise) (accepted plaintext : List ℕ) (n : ℕ)
    → Refines r.recv_window accepted
    → admits accepted n ≡ false
    → (e : Error) × ((after_check c r plaintext (check_and_mark r.recv_window n)).1 ≡ inl e)
unfolding accepts
refused c r accepted plaintext n w a =
    of_result (check_and_mark r.recv_window n)
      ((check_and_mark-Refines r.recv_window accepted n w).0 ∙ a)
  where
    of_result :
        (out : ReplayWindow × Option Error)
        → accepts out.1 ≡ false
        → (e : Error) × ((after_check c r plaintext out).1 ≡ inl e)
    of_result (w', none) e = absurd cc
    of_result (w', some x) e = (x, refl)

again_refused : (accepted : List ℕ) (n : ℕ) → admits (n ∷ accepted) n ≡ false
unfolding elem
again_refused accepted n = elim (Bool-cases (admits (n ∷ accepted) n)) [
  | inl a ↦
      (let new : (n == n || elem n accepted) ≡ false = admits_fresh (n ∷ accepted) n a in
        ground arith)
  | inr a ↦ a
]

-- Let the primitives have the laws of their crates. If one side seals under the key that the other
-- opens with, before its last nonce, and the other's window stands for a list of nonces that admits this
-- one, then sealing gives a datagram and moves on to the next nonce, the datagram is opened to
-- the plaintext, and the same datagram is refused when it comes again.
pub open_in_place-seal :
    (c : Primitives) (l : PrimitiveLaws c) (s r : StatelessNoise) (accepted plaintext : List ℕ)
    → s.send_key ≡ r.recv_key
    → s.send_nonce + 1 < 2 ^ 64
    → Refines r.recv_window accepted
    → admits accepted s.send_nonce ≡ true
    → (datagram : List ℕ) × (seal c s plaintext
        ≡ (record s { send_nonce = s.send_nonce + 1 }, inr datagram))
      × (let (r', opened) = open_in_place c r datagram in
          (opened ≡ inr plaintext)
          × Refines r'.recv_window (s.send_nonce ∷ accepted)
          × ((e : Error) × ((open_in_place c r' datagram).1 ≡ inl e)))
open_in_place-seal c l s r accepted plaintext k h w a =
    let n = s.send_nonce in
    let first = after_check c r plaintext (check_and_mark r.recv_window n) in
    let once = admitted c r accepted plaintext n w a in
    let twice = refused c first.0 (n ∷ accepted) plaintext n once.1 (again_refused accepted n) in
    let opens = open-sealed c l s r plaintext k (omega arith) in
    let reopens = open-sealed c l s first.0 plaintext (k ∙ sym once.2) (omega arith) in
    (sealed c s plaintext, seal-sealed c s plaintext h, rw opens (once.0, once.1, rw reopens twice))
