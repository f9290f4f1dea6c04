-- ===== src/Proto/Reads.antt =====
-- What it means that a reader reads a value from bytes, and the rules for `do` blocks.
use Prim.Native.String.{String}
use mathlib.Core.Path.{subst}
use zeronat.Base.{
  ◌⊎◌, inl, inr, ℕ, ◌+◌, ◌*◌, ◌/◌, ◌%◌, ◌^◌, ◌≤◌, ◌<◌, ◌≡◌, refl, ap, ◌∙◌, Bool, true, false,
  Option, none, some, List, [], ◌∷◌, ◌++◌, length, take, drop, be16, be32, arith, append_assoc,
  length-append, take-append, drop-append, u32_be-be32,
}
use zeronat.Proto.Types.{PathStatus, direct, relay, settled_path_byte, Proto, tcp, udp, proto_byte}
use zeronat.Proto.Writer.{be64, bool_u8}
use zeronat.Proto.Reader.{
  Rd, Reader, ◌>>=◌, ◌>>◌, ret, need, take_bytes, get_u8, get_u16, get_u32, get_u64, get_count,
  flag, one_of, index, get_proto, settled_path,
}

-- The cursor of a body that has been read without a failure so far.
abbrev pub fresh : List ℕ → Rd
fresh bytes = record { rest = bytes; err = none }

-- The reader takes `bytes` from the front of any body that begins with them, and yields `v`.
pub record Reads {A : Type 0} (m : Reader A) (bytes : List ℕ) (v : A) : Type 0 where
  pub runs : (tail : List ℕ) → m (fresh (bytes ++ tail)) ≡ (v, fresh tail)

pub Reads-ret : {A : Type 0} (v : A) → Reads (ret v) [] v
unfolding ret
Reads-ret v = record { runs = λ tail. refl }

-- One reader after the other.
pub Reads-bind :
    {A B : Type 0} {m : Reader A} (f : A → Reader B) {xs ys : List ℕ} {a : A} {b : B}
    → Reads m xs a
    → Reads (f a) ys b
    → Reads (m >>= f) (xs ++ ys) b
unfolding ◌>>=◌
Reads-bind {A = A} {m = m} f {xs = xs} {ys = ys} h k = record {
  runs = λ tail.
      ap (λ l. f (m (fresh l)).0 (m (fresh l)).1) (append_assoc xs ys tail)
      ∙ ap (λ (out : A × Rd). f out.0 out.1) (h.runs (ys ++ tail))
      ∙ k.runs tail;
}

pub need_ok :
    (n : ℕ) (what : String) (bytes tail : List ℕ)
    → n ≤ length bytes
    → need n what (fresh (bytes ++ tail)) ≡ (tt, fresh (bytes ++ tail))
unfolding need
need_ok n what bytes tail h = ground (arith, length-append bytes tail)

-- A bounds check for bytes that follow.
pub Reads-need :
    {B : Type 0} {n : ℕ} (what : String) {k : Reader B} {bytes : List ℕ} {b : B}
    → n ≤ length bytes
    → Reads k bytes b
    → Reads (need n what >> k) bytes b
unfolding ◌>>◌
Reads-need {B = B} {n = n} what {k = k} {bytes = bytes} h r = record {
  runs = λ tail. ap (λ (out : Unit {0} × Rd). k out.1) (need_ok n what bytes tail h) ∙ r.runs tail;
}

-- The same reading with its bytes written otherwise.
pub Reads-bytes :
    {A : Type 0} {m : Reader A} {xs ys : List ℕ} {v : A} → xs ≡ ys → Reads m xs v → Reads m ys v
Reads-bytes {m = m} {v = v} e h = subst (λ l. Reads m l v) e h

pub take_bytes-Reads : (xs : List ℕ) {n : ℕ} → length xs ≡ n → Reads (take_bytes n) xs xs
unfolding take_bytes
take_bytes-Reads xs {n = n} h = record {
  runs = λ tail. ground (
    arith,
    length-append xs tail,
    take-append xs tail,
    drop-append xs tail,
    ap (λ (k : ℕ). take k (xs ++ tail)) h,
    ap (λ (k : ℕ). drop k (xs ++ tail)) h,
  );
}

pub get_u8-Reads : (v : ℕ) → Reads get_u8 (v ∷ []) v
unfolding get_u8 ◌>>=◌ ret
get_u8-Reads v = record { runs = λ tail. ground arith }

pub get_u16-Reads : (v : ℕ) → v < 65536 → Reads get_u16 (be16 v) v
unfolding get_u16 ◌>>=◌ ret
get_u16-Reads v h = record { runs = λ tail. ground arith }

pub get_u32-Reads : (v : ℕ) → v < 2 ^ 32 → Reads get_u32 (be32 v) v
unfolding get_u32 ◌>>=◌ ret
get_u32-Reads v h = record { runs = λ tail. ground arith }

u64-halves :
    (v : ℕ)
    → v < 2 ^ 64
    → (v / 2 ^ 32 < 2 ^ 32) × (v % 2 ^ 32 < 2 ^ 32) × (v / 2 ^ 32 * 2 ^ 32 + v % 2 ^ 32 ≡ v)
u64-halves v h = omega arith

pub get_u64-Reads : (v : ℕ) → v < 2 ^ 64 → Reads get_u64 (be64 v) v
unfolding get_u64 ◌>>=◌ ret
get_u64-Reads v h = record {
  runs = λ tail.
      let (hi, lo, sum) = u64-halves v h in
      ground (arith, sum, u32_be-be32 (v / 2 ^ 32) hi, u32_be-be32 (v % 2 ^ 32) lo);
}

pub get_count-Reads : (what : String) (v : ℕ) → v < 65536 → Reads (get_count what) (be16 v) v
unfolding get_count
get_count-Reads what v h = Reads-need what (omega arith) (get_u16-Reads v h)

pub flag-Reads : (what : String) (x : Bool) → Reads (flag what) (bool_u8 x ∷ []) x
unfolding flag ◌>>=◌ ◌>>◌ ret
flag-Reads what true = record { runs = λ tail. ground arith }
flag-Reads what false = record { runs = λ tail. ground arith }

pub one_of-Reads :
    {a b : ℕ} (what : String) (v : ℕ) → (v ≡ a) ⊎ (v ≡ b) → Reads (one_of a b what) (v ∷ []) v
unfolding one_of ◌>>=◌ ◌>>◌ ret
one_of-Reads what v h = record { runs = λ tail. ground arith }

pub index-Reads :
    {limit : ℕ} (what : String) (v : ℕ) → v < limit → Reads (index limit what) (v ∷ []) v
unfolding index ◌>>=◌ ◌>>◌ ret
index-Reads what v h = record { runs = λ tail. ground arith }

pub get_proto-Reads : (p : Proto) → Reads get_proto (proto_byte p ∷ []) p
unfolding get_proto
get_proto-Reads tcp = Reads-bind _ (one_of-Reads _ 1 (inl refl)) (Reads-ret tcp)
get_proto-Reads udp = Reads-bind _ (one_of-Reads _ 2 (inr refl)) (Reads-ret udp)

pub settled_path-Reads : (p : Option PathStatus) → Reads settled_path (settled_path_byte p ∷ []) p
unfolding settled_path
settled_path-Reads none = Reads-bind _ (index-Reads _ 0 (omega arith)) (Reads-ret none)
settled_path-Reads (some direct) =
    Reads-bind _ (index-Reads _ 1 (omega arith)) (Reads-ret (some direct))
settled_path-Reads (some relay) =
    Reads-bind _ (index-Reads _ 2 (omega arith)) (Reads-ret (some relay))
