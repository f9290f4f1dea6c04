-- ===== src/Hash/Stream.antt =====
-- The hash in progress takes its data as if byte by byte, so it does not matter how the data is cut.
use zeronat.Base.{
  append-nil, ℕ, zero, suc, ◌+◌, ◌-◌, ◌≤◌, ◌<◌, ◌≡◌, List, [], ◌∷◌, ◌++◌, take, drop, length, arith,
  refl, ap, sym, ◌∙◌, take-append-drop, length-take, length-drop, min,
}
use zeronat.Hash.Blake2s.{
  write_at, flush, fill, Blake2s, update_loop, update, update_all, new, blake2s, finalize,
}

unfoldable pub concat : List (List ℕ) → List ℕ
concat [] = []
concat (p ∷ ps) = p ++ concat ps

-- One byte.
unfoldable pub push : Blake2s → ℕ → Blake2s
push s b = let r = flush s in record r { buf = write_at r.buf r.len (b ∷ []); len = suc r.len }

-- Byte by byte: the reference for `update`.
unfoldable pub absorb : Blake2s → List ℕ → Blake2s
absorb s [] = s
absorb s (b ∷ bs) = absorb (push s b) bs

-- The buffer is a block, and the count stays in it.
pub record InBlock (s : Blake2s) : Type 0 where
  pub block : length s.buf ≡ 64
  pub count : s.len ≤ 64

write_at-step :
    (buf : List ℕ) (at b : ℕ) (xs : List ℕ)
    → at + suc (length xs) ≤ length buf
    → write_at (write_at buf at (b ∷ [])) (suc at) xs ≡ write_at buf at (b ∷ xs)
unfolding write_at
write_at-step [] at b xs h = absurd (omega arith)
write_at-step (x ∷ buf) zero b xs h = refl
write_at-step (x ∷ buf) (suc at) b xs h = ap (λ l. x ∷ l) (write_at-step buf at b xs (omega arith))

write_at-nil : (buf : List ℕ) (at : ℕ) → at ≤ length buf → write_at buf at [] ≡ buf
unfolding write_at
write_at-nil buf zero h = refl
write_at-nil [] (suc at) h = refl
write_at-nil (x ∷ buf) (suc at) h = ap (λ l. x ∷ l) (write_at-nil buf at (omega arith))

length-write_at :
    (buf : List ℕ) (at b : ℕ) → at < length buf → length (write_at buf at (b ∷ [])) ≡ length buf
unfolding write_at
length-write_at [] at b h = absurd (omega arith)
length-write_at (x ∷ buf) zero b h = refl
length-write_at (x ∷ buf) (suc at) b h = ap suc (length-write_at buf at b (omega arith))

flush-count : (s : Blake2s) → InBlock s → InBlock (flush s) × ((flush s).len < 64)
unfolding flush
flush-count s w = ground arith

flush_below : (s : Blake2s) → s.len < 64 → flush s ≡ s
unfolding flush
flush_below s h = ground arith

push-InBlock : (s : Blake2s) (b : ℕ) → InBlock s → InBlock (push s b)
unfolding push
push-InBlock s b w =
    let (ready, below) = flush-count s w in
    record {
      block =
          length-write_at (flush s).buf (flush s).len b (omega (arith, ready.block)) ∙ ready.block;
      count = omega arith;
    }

absorb-InBlock : (xs : List ℕ) (s : Blake2s) → InBlock s → InBlock (absorb s xs)
unfolding absorb
absorb-InBlock [] s w = w
absorb-InBlock (x ∷ xs) s w = absorb-InBlock xs (push s x) (push-InBlock s x w)

absorb-append : (xs ys : List ℕ) (s : Blake2s) → absorb s (xs ++ ys) ≡ absorb (absorb s xs) ys
unfolding absorb
absorb-append [] ys s = refl
absorb-append (x ∷ xs) ys s = absorb-append xs ys (push s x)

-- Bytes that fit, byte by byte and at once.
absorb_write :
    (xs : List ℕ) (s : Blake2s)
    → InBlock s
    → s.len + length xs ≤ 64
    → absorb s xs ≡ record s { buf = write_at s.buf s.len xs; len = s.len + length xs }
unfolding absorb push
absorb_write [] s w h =
    λ i. record s { buf = sym (write_at-nil s.buf s.len (omega (arith, w.block))) i; len = same i }
  where
    same : s.len ≡ s.len + 0
    same = omega arith
absorb_write (x ∷ xs) s w h =
    ap (λ r. absorb (record r { buf = write_at r.buf r.len (x ∷ []); len = suc r.len }) xs)
      (flush_below s (omega arith))
    ∙ absorb_write xs _
        (record {
          block = length-write_at s.buf s.len x (omega (arith, w.block)) ∙ w.block;
          count = omega arith;
        })
        (omega arith)
    ∙ (λ i. record s {
      buf = write_at-step s.buf s.len x xs (omega (arith, w.block)) i;
      len = same i;
    })
  where
    same : suc s.len + length xs ≡ s.len + length (x ∷ xs)
    same = omega arith

fill-absorb :
    (n : ℕ) (bytes : List ℕ) (s : Blake2s)
    → InBlock s
    → s.len + n ≤ 64
    → n ≤ length bytes
    → fill s n bytes ≡ absorb s (take n bytes)
unfolding fill
fill-absorb n bytes s w h k =
    (λ i. record s { buf = write_at s.buf s.len (take n bytes); len = s.len + same i })
    ∙ sym (absorb_write (take n bytes) s w (omega (arith, same)))
  where
    same : n ≡ length (take n bytes)
    same = omega (arith, length-take n bytes)

absorb-flush :
    (x : ℕ) (xs : List ℕ) (s : Blake2s) → InBlock s → absorb (flush s) (x ∷ xs) ≡ absorb s (x ∷ xs)
unfolding absorb push
absorb-flush x xs s w = rw (flush_below (flush s) (flush-count s w).1) refl

-- Enough turns of the loop.
update_loop-absorb :
    (fuel : ℕ) (s : Blake2s) (bytes : List ℕ)
    → InBlock s
    → length bytes ≤ fuel
    → update_loop fuel s bytes ≡ absorb s bytes
unfolding update_loop absorb
update_loop-absorb zero s [] w h = refl
update_loop-absorb zero s (b ∷ bs) w h = absurd (omega arith)
update_loop-absorb (suc fuel) s [] w h = refl
update_loop-absorb (suc fuel) s (b ∷ bs) w h =
    let bytes = b ∷ bs in
    let r = flush s in
    let n = min (suc (length bs)) (64 - r.len) in
    let (ready, below) = flush-count s w in
    ap (λ q. update_loop fuel q (drop n bytes))
      (fill-absorb n bytes r ready (omega arith) (omega arith))
    ∙ update_loop-absorb fuel (absorb r (take n bytes)) (drop n bytes)
        (absorb-InBlock (take n bytes) r ready) (omega (arith, length-drop n bytes))
    ∙ sym (absorb-append (take n bytes) (drop n bytes) r)
    ∙ ap (absorb r) (take-append-drop n bytes)
    ∙ absorb-flush b bs s w

-- The fuel of `update`, the length of the data, is enough: on a state within its block, `update` ends
-- in the state that takes the bytes one by one.
pub update-absorb : (s : Blake2s) (bytes : List ℕ) → InBlock s → update s bytes ≡ absorb s bytes
unfolding update
update-absorb s bytes w = update_loop-absorb (length bytes) s bytes w (omega arith)

pub update_all-absorb :
    (ps : List (List ℕ)) (s : Blake2s) → InBlock s → update_all s ps ≡ absorb s (concat ps)
unfolding update_all absorb concat
update_all-absorb [] s w = refl
update_all-absorb (p ∷ ps) s w =
    ap (λ q. update_all q ps) (update-absorb s p w)
    ∙ update_all-absorb ps (absorb s p) (absorb-InBlock p s w)
    ∙ sym (absorb-append p (concat ps) s)

pub new-InBlock : InBlock (new 32 [])
unfolding new
new-InBlock = record { block = refl; count = omega arith }

-- However its data is cut, the digest is that of the concatenation.
pub blake2s-concat : (parts : List (List ℕ)) → blake2s parts ≡ blake2s (concat parts ∷ [])
unfolding blake2s concat
blake2s-concat parts = ap finalize (
    update_all-absorb parts (new 32 []) new-InBlock
    ∙ ap (absorb (new 32 [])) (sym (append-nil (concat parts)))
    ∙ sym (update_all-absorb (concat parts ∷ []) (new 32 []) new-InBlock))
