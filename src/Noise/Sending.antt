-- ===== src/Noise/Sending.antt =====
-- A plaintext of any length, cut into frames by the writer, is what the reader's frames make up.
use mathlib.Core.Path.{subst}
use zeronat.Base.{
  Option, some, none, ap, sym, ◌+◌, ◌/◌, ℕ, suc, zero, ◌≡◌, ◌≤◌, List, [], ◌∷◌, ◌++◌, length, take,
  drop, arith, refl, ◌∙◌, append_assoc, take-append-drop, length-drop, length-take,
}
use zeronat.Noise.Primitives.{Primitives, PrimitiveLaws}
use zeronat.Noise.Stream.{
  Fill, NoiseWriter, send, send_chunks, NoiseReader, plaintext, fill, frame, waits,
  connection_closed, undecryptable,
}
use zeronat.Noise.Framing.{InStep, fill-frame}
use zeronat.Hash.Stream.{concat}
use zeronat.Noise.Frames.{Chunks}

-- The plaintext of a frame with what is read behind it, if there is one.
unfoldable pub with_text : Fill → Option (List ℕ) → Option (List ℕ)
with_text (plaintext pt) (some more) = some (pt ++ more)
with_text (plaintext pt) none = none
with_text waits more = none
with_text connection_closed more = none
with_text undecryptable more = none

-- So many frames in a row: the reader, what is left, and their plaintexts together, if every
-- call gives one.
unfoldable pub fills :
    Primitives → ℕ → NoiseReader → List (List ℕ) → NoiseReader × List (List ℕ) × Option (List ℕ)
fills c zero r src = (r, src, some [])
fills c (suc k) r src =
    let (r1, left, got) = fill c r src in
    let (r2, rest, more) = fills c k r1 left in (r2, rest, with_text got more)

-- The chunks of so many bytes: a frame holds 65519 of them.
abbrev pub frames_of : ℕ → ℕ
frames_of n = (n + 65518) / 65519

-- So many calls give the text, and the ends are in step behind it.
pub record Delivered (c : Primitives) (frames : ℕ) (w : NoiseWriter) (r : NoiseReader)
    (src : List (List ℕ)) (bytes more : List ℕ) : Type 0 where
  pub text : (fills c frames r src).2 ≡ some bytes
  pub behind : concat (fills c frames r src).1 ≡ more
  pub in_step : InStep w (fills c frames r src).0

send_chunks-Delivered :
    (c : Primitives) (l : PrimitiveLaws c) (fuel : ℕ) (w : NoiseWriter) (r : NoiseReader)
    (bytes more : List ℕ) (src : List (List ℕ))
    → length bytes ≤ fuel
    → InStep w r
    → Chunks src
    → concat src ≡ (send_chunks c fuel w bytes).1 ++ more
    → Delivered c (frames_of (length bytes)) (send_chunks c fuel w bytes).0 r src bytes more
unfolding send_chunks fills with_text
send_chunks-Delivered c l zero w r [] more src h s k e = record {
  text = refl;
  behind = e;
  in_step = s;
}
send_chunks-Delivered c l zero w r (b ∷ bs) more src h s k e = absurd (omega arith)
send_chunks-Delivered c l (suc fuel) w r [] more src h s k e = record {
  text = refl;
  behind = e;
  in_step = s;
}
send_chunks-Delivered c l (suc fuel) w r (b ∷ bs) more src h s k e =
    let bytes = b ∷ bs in
    let first = take 65519 bytes in
    let others = drop 65519 bytes in
    let w1 = (frame c w first).0 in
    let later = (send_chunks c fuel w1 others).1 in
    let one =
      fill-frame c l w r first (later ++ more) src s (omega (arith, length-take 65519 bytes)) k
        (e ∙ append_assoc (frame c w first).1 later more) in
    let count : frames_of (length bytes) ≡ suc (frames_of (length others)) =
      omega (arith, length-drop 65519 bytes) in
    let rest =
      send_chunks-Delivered c l fuel w1 (fill c r src).0 others more (fill c r src).1
        (omega (arith, length-drop 65519 bytes)) one.in_step one.chunks one.behind in
    subst (λ k. Delivered c k (send_chunks c fuel w1 others).0 r src bytes more) (sym count)
      (record {
        text = (λ i. with_text (one.text i) (rest.text i)) ∙ ap some (take-append-drop 65519 bytes);
        behind = rest.behind;
        in_step = rest.in_step;
      })

-- Let the primitives have the laws of their crates. If the ends are in step, then from any source that
-- delivers what `send` writes for a plaintext, in whatever chunks and with whatever behind it, as many
-- calls as the plaintext has chunks of 65519 bytes each give a plaintext, which together are the one
-- that was sent; the bytes behind are left, and the ends are in step again.
pub send-Delivered :
    (c : Primitives) (l : PrimitiveLaws c) (w : NoiseWriter) (r : NoiseReader) (bytes more : List ℕ)
    (src : List (List ℕ))
    → InStep w r
    → Chunks src
    → concat src ≡ (send c w bytes).1 ++ more
    → Delivered c (frames_of (length bytes)) (send c w bytes).0 r src bytes more
unfolding send
send-Delivered c l w r bytes more src s k e =
    send_chunks-Delivered c l (length bytes) w r bytes more src (omega arith) s k e
