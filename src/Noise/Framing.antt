-- ===== src/Noise/Framing.antt =====
-- What the writer sends, the reader gets, however the stream between them is cut.
use zeronat.Base.{
  ℕ, ◌+◌, ◌%◌, ◌^◌, ◌≡◌, ◌≤◌, List, [], ◌++◌, true, false, some, length, ltb, arith, refl, ap, sym,
  ◌∙◌, be16, u16_be, get_or, u16_be-be16,
}
use mathlib.Core.Path.{subst}
use zeronat.Noise.Primitives.{Primitives, PrimitiveLaws}
use zeronat.Noise.Stream.{
  frame, NoiseWriter, with_len, fill, after_body, NoiseReader, Fill, Taken, max_plaintext,
  plaintext, fill_body, read_until,
}
use zeronat.Noise.Symmetric.{aead_encrypt, aead_open}
use zeronat.Noise.Frames.{Chunks, Leaves, read_until-Leaves}
use zeronat.Hash.Stream.{concat}
use zeronat.Noise.Agreement.{length-seal, open_seal}
use zeronat.Noise.Resume.{after_len-full}

-- The two ends of a stream between two frames.
pub record InStep (w : NoiseWriter) (r : NoiseReader) : Type 0 where
  pub key : w.send_key ≡ r.recv_key
  pub count : w.send_n ≡ r.recv_n
  pub no_len : r.len ≡ []
  pub no_body : r.have_len ≡ false

-- A frame was read: the ends are in step again, and the bytes behind it are left.
pub record Received (w : NoiseWriter) (more chunk : List ℕ)
    (out : NoiseReader × List (List ℕ) × Fill) : Type 0 where
  pub text : out.2 ≡ plaintext chunk
  pub behind : concat out.1 ≡ more
  pub chunks : Chunks out.1
  pub in_step : InStep w out.0

after_body-Received :
    (c : Primitives) (w : NoiseWriter) (r : NoiseReader) (t : Taken) (ct chunk more : List ℕ)
    → Leaves t ct more
    → r.size ≡ length ct
    → aead_open c r.recv_key r.recv_n [] ct ≡ some chunk
    → w.send_key ≡ r.recv_key
    → w.send_n ≡ (r.recv_n + 1) % 2 ^ 64
    → Received w more chunk (after_body c r t)
unfolding after_body
after_body-Received c w r t ct chunk more leaves size opens key count =
    let full : ltb (length t.got) r.size ≡ false = ground (arith, ap length leaves.taken) in
    let opens' : aead_open c r.recv_key r.recv_n [] t.got ≡ some chunk =
      ap (aead_open c r.recv_key r.recv_n []) leaves.taken ∙ opens in
    rw (full, opens')
      (record {
        text = refl;
        behind = leaves.rest;
        chunks = leaves.chunks;
        in_step = record { key = key; count = count; no_len = refl; no_body = refl };
      })

frame_bytes :
    (c : Primitives) (w : NoiseWriter) (chunk more : List ℕ)
    → (frame c w chunk).1 ++ more
      ≡ be16 ((length chunk + 16) % 65536) ++ (aead_encrypt c w.send_key w.send_n [] chunk ++ more)
unfolding frame aead_encrypt
frame_bytes c w chunk more = refl

with_len_new :
    (r : NoiseReader)
    → r.have_len ≡ false
    → with_len r
      ≡ record r { have_len = true; size = u16_be (get_or r.len 0 0) (get_or r.len 1 0); body = [] }
unfolding with_len
with_len_new r h = ground arith

-- Let the primitives have the laws of their crates. If the ends are in step, a frame of at most 65519
-- bytes is read to its text from any source that delivers its bytes, in whatever chunks and with
-- whatever behind them, the bytes behind it are left, and the ends are in step again.
pub fill-frame :
    (c : Primitives) (l : PrimitiveLaws c) (w : NoiseWriter) (r : NoiseReader) (chunk more : List ℕ)
    (src : List (List ℕ))
    → InStep w r
    → length chunk ≤ max_plaintext
    → Chunks src
    → concat src ≡ (frame c w chunk).1 ++ more
    → Received (frame c w chunk).0 more chunk (fill c r src)
unfolding fill frame fill_body
fill-frame c l w r chunk more src s small k e =
    subst (Received (frame c w chunk).0 more chunk) (sym path) (
      after_body-Received c (frame c w chunk).0 ready (read_until n [] t.left) ct chunk more
        body_left size opens s.key next)
  where
    ct : List ℕ
    ct = aead_encrypt c w.send_key w.send_n [] chunk

    n : ℕ
    n = (length chunk + 16) % 65536

    size : n ≡ length ct
    size = omega (arith, length-seal c l w.send_key w.send_n [] chunk)

    t : Taken
    t = read_until 2 r.len src

    len_left : Leaves t (r.len ++ be16 n) (ct ++ more)
    len_left =
        read_until-Leaves 2 src r.len (be16 n) (ct ++ more) k (e ∙ frame_bytes c w chunk more)
          (omega (arith, ap length s.no_len))

    got : t.got ≡ be16 n
    got = len_left.taken ∙ ap (λ len. len ++ be16 n) s.no_len

    ready : NoiseReader
    ready = record r { len = be16 n; have_len = true; size = n; body = [] }

    state : with_len (record r { len = t.got }) ≡ ready
    state =
        with_len_new (record r { len = t.got }) s.no_body
        ∙ (λ i. record r {
          len = got i;
          have_len = true;
          size = u16_be (get_or (got i) 0 0) (get_or (got i) 1 0);
          body = [];
        })
        ∙ (λ i. record r {
          len = be16 n;
          have_len = true;
          size = u16_be-be16 n (omega arith) i;
          body = [];
        })

    path : fill c r src ≡ fill_body c ready t.left
    path =
        after_len-full c r t (omega (arith, ap length got)) ∙ ap (λ x. fill_body c x t.left) state

    body_left : Leaves (read_until n [] t.left) ct more
    body_left =
        read_until-Leaves n t.left [] ct more len_left.chunks len_left.rest (omega (arith, size))

    opens : aead_open c r.recv_key r.recv_n [] ct ≡ some chunk
    opens = rw (← s.key, ← s.count) (open_seal c l w.send_key w.send_n [] chunk)

    next : (w.send_n + 1) % 2 ^ 64 ≡ (r.recv_n + 1) % 2 ^ 64
    next = ap (λ x. (x + 1) % 2 ^ 64) s.count
