-- ===== src/Proto/Ends.antt =====
-- What it means that a reader reads a whole body, and that a message whose arm does so is decoded.
use Prim.Native.String.{String}
use zeronat.Base.{
  inr, ℕ, suc, ◌≤◌, ◌≡◌, refl, ap, ◌∙◌, sym, List, [], ◌∷◌, ◌++◌, length, append-nil, arith,
}
use zeronat.Proto.Reader.{Rd, Reader, ◌>>=◌, ◌>>◌, ret, need, at_end}
use zeronat.Proto.Reads.{fresh, Reads, need_ok}
use zeronat.Proto.Msg.{Msg}
use zeronat.Proto.Decode.{when_len, read_msg, decode, finish}

-- The reader takes exactly `bytes`, without a failure, and yields `v`.
pub record Ends {A : Type 0} (m : Reader A) (bytes : List ℕ) (v : A) : Type 0 where
  pub runs : m (fresh bytes) ≡ (v, fresh [])

pub Ends-ret : {A : Type 0} (v : A) → Ends (ret v) [] v
unfolding ret
Ends-ret v = record { runs = refl }

pub Ends-bind :
    {A B : Type 0} {m : Reader A} (f : A → Reader B) {xs ys : List ℕ} {a : A} {b : B}
    → Reads m xs a
    → Ends (f a) ys b
    → Ends (m >>= f) (xs ++ ys) b
unfolding ◌>>=◌
Ends-bind {A = A} {m = m} f {xs = xs} {ys = ys} h k = record {
  runs = ap (λ (out : A × Rd). f out.0 out.1) (h.runs ys) ∙ k.runs;
}

-- The last reader of a body, whose result is repacked.
pub Ends-last :
    {A B : Type 0} {m : Reader A} (f : A → Reader B) {xs : List ℕ} {a : A} {b : B}
    → Reads m xs a
    → Ends (f a) [] b
    → Ends (m >>= f) xs b
unfolding ◌>>=◌
Ends-last {A = A} {m = m} f {xs = xs} h k = record {
  runs =
      ap (λ (l : List ℕ). f (m (fresh l)).0 (m (fresh l)).1) (sym (append-nil xs))
      ∙ ap (λ (out : A × Rd). f out.0 out.1) (h.runs [])
      ∙ k.runs;
}

pub Ends-need :
    {B : Type 0} {n : ℕ} (what : String) {k : Reader B} {bytes : List ℕ} {b : B}
    → n ≤ length bytes
    → Ends k bytes b
    → Ends (need n what >> k) bytes b
unfolding ◌>>◌
Ends-need {B = B} {n = n} what {k = k} {bytes = bytes} h r = record {
  runs =
      ap (λ (l : List ℕ). k (need n what (fresh l)).1) (sym (append-nil bytes))
      ∙ ap (λ (out : Unit {0} × Rd). k out.1) (need_ok n what bytes [] h)
      ∙ ap (λ (l : List ℕ). k (fresh l)) (append-nil bytes)
      ∙ r.runs;
}

pub Ends-at_end :
    {B : Type 0} (what : String) {k : Reader B} {b : B} → Ends k [] b → Ends (at_end what >> k) [] b
unfolding ◌>>◌ at_end
Ends-at_end what r = record { runs = r.runs }

-- An inner block that reads a whole body, whose result is repacked.
pub Ends-map :
    {A B : Type 0} {m : Reader A} (f : A → Reader B) {xs : List ℕ} {a : A} {b : B}
    → Ends m xs a
    → Ends (f a) [] b
    → Ends (m >>= f) xs b
unfolding ◌>>=◌
Ends-map {A = A} f h k = record { runs = ap (λ (out : A × Rd). f out.0 out.1) h.runs ∙ k.runs }

pub when_len-Ends :
    {n len : ℕ} {arm : Reader Msg} {bytes : List ℕ} {v : Msg}
    → len ≡ n
    → Ends arm bytes v
    → Ends (when_len n len arm) bytes v
unfolding when_len
when_len-Ends h e = record { runs = ground (arith, e.runs) }

pub finish-Ends :
    {A : Type 0} {m : Reader A} {bytes : List ℕ} {v : A}
    → Ends m bytes v
    → finish (m (fresh bytes)) ≡ inr v
finish-Ends {A} e = ap (λ (out : A × Rd). finish out) e.runs

-- A body whose arm reads it whole is decoded.
pub decode-Ends :
    (tag : ℕ) {bytes : List ℕ} {v : Msg}
    → Ends (read_msg tag (suc (length bytes))) bytes v
    → decode (tag ∷ bytes) ≡ inr v
unfolding decode
decode-Ends tag e = rw (e.runs) refl
