-- ===== src/Noise/Frames.antt =====
-- A read of a frame that is dropped goes on where it was, and frames arrive whole however the stream
-- is cut.
use zeronat.Base.{
  ℕ, suc, ◌+◌, ◌-◌, ◌≡◌, ◌<◌, ◌≤◌, List, [], ◌∷◌, ◌++◌, true, false, length, take, drop, leb, arith,
  refl, ap, sym, ◌∙◌, Bool-cases, inl, inr, length-append, length-take, take_front, drop_front,
  append-nil, append_assoc,
}
use zeronat.Noise.Stream.{read_until, Taken}
use zeronat.Hash.Stream.{concat}

-- A loop that has not got enough goes on from what it has.
unfoldable pub Resumes : ℕ → List (List ℕ) → Taken → Taken → Type 0
Resumes want more t t' =
    t.closed ≡ false → length t.got < want → (t.left ≡ []) × (t' ≡ read_until want t.got more)

pub read_until-Resumes :
    (want : ℕ) (src more : List (List ℕ)) (got : List ℕ)
    → Resumes want more (read_until want got src) (read_until want got (src ++ more))
unfolding read_until Resumes
read_until-Resumes want [] more got = λ o h. (refl, refl)
read_until-Resumes want ([] ∷ cs) more got = λ o h. absurd (ground arith)
read_until-Resumes want ((b ∷ bs) ∷ cs) more got =
    let rest = read_until-Resumes want cs more (got ++ (b ∷ bs)) in
    elim (Bool-cases (leb want (length got))) [
      | inl full ↦ rw full (λ o h. absurd (ground arith))
      | inr e ↦ rw e (elim (Bool-cases (leb (suc (length bs)) (want - length got))) [
        | inl whole ↦ rw whole rest
        | inr part ↦ rw part (λ o h. absurd (
            ground (
              arith,
              length-append got (take (want - length got) (b ∷ bs)),
              length-take (want - length got) (b ∷ bs),
            )))
      ])
    ]

-- Chunks of bytes, the connection open.
unfoldable pub Chunks : List (List ℕ) → Type 0
Chunks [] = Unit
Chunks ([] ∷ cs) = ⊥
Chunks ((b ∷ bs) ∷ cs) = Chunks cs

-- What a loop leaves of a source that has the bytes it wants.
pub record Leaves (t : Taken) (got : List ℕ) (more : List ℕ) : Type 0 where
  pub taken : t.got ≡ got
  pub rest : concat t.left ≡ more
  pub chunks : Chunks t.left

-- The shorter of two fronts of a list is a front of the longer one.
prefix_split :
    (xs ys p q : List ℕ)
    → xs ++ p ≡ ys ++ q
    → length xs ≤ length ys
    → (zs : List ℕ) × (ys ≡ xs ++ zs) × (p ≡ zs ++ q)
prefix_split [] ys p q e h = (ys, refl, e)
prefix_split (x ∷ xs) [] p q e h = absurd (omega arith)
prefix_split (x ∷ xs) (y ∷ ys) p q e h =
    let heads : x ≡ y = cc in
    let tails : xs ++ p ≡ ys ++ q = cc in
    let (zs, front, back) = prefix_split xs ys p q tails (omega arith) in
    (zs, (λ i. sym heads i ∷ front i), back)

-- A chunk that is longer than what is wanted.
part_Leaves :
    (room : ℕ) (chunk got bytes more zs : List ℕ) (cs : List (List ℕ))
    → length bytes ≡ room
    → room < length chunk
    → chunk ≡ bytes ++ zs
    → more ≡ zs ++ concat cs
    → Chunks cs
    → Leaves
        (record { got = got ++ take room chunk; left = drop room chunk ∷ cs; closed = false })
        (got ++ bytes)
        more
unfolding concat Chunks
part_Leaves room chunk got bytes more [] cs h l e m k =
    absurd (omega (arith, length-append bytes [], ap length e))
part_Leaves room chunk got bytes more (z ∷ zs) cs h l e m k =
    rw (e, take_front room bytes (z ∷ zs) h, drop_front room bytes (z ∷ zs) h)
      (record { taken = refl; rest = sym m; chunks = k })

pub read_until-Leaves :
    (want : ℕ) (src : List (List ℕ)) (got bytes more : List ℕ)
    → Chunks src
    → concat src ≡ bytes ++ more
    → length got + length bytes ≡ want
    → Leaves (read_until want got src) (got ++ bytes) more
unfolding read_until concat Chunks
read_until-Leaves want [] got [] more k e h = record {
  taken = sym (append-nil got);
  rest = e;
  chunks = tt;
}
read_until-Leaves want [] got (y ∷ ys) more k e h = absurd cc
read_until-Leaves want ([] ∷ cs) got bytes more k e h = absurd k
read_until-Leaves want ((b ∷ bs) ∷ cs) got [] more k e h =
    let full : leb want (length got) ≡ true = ground arith in
    rw full (record { taken = sym (append-nil got); rest = e; chunks = k })
read_until-Leaves want ((b ∷ bs) ∷ cs) got (y ∷ ys) more k e h =
    let chunk = b ∷ bs in
    let bytes = y ∷ ys in
    let room : want - length got ≡ length bytes = omega arith in
    let some_room : leb want (length got) ≡ false = ground arith in
    rw some_room (elim (Bool-cases (leb (suc (length bs)) (want - length got))) [
      | inl whole ↦
          (let (zs, front, back) = prefix_split chunk bytes (concat cs) more e (ground arith) in
            let sizes : suc (length ys) ≡ suc (length bs) + length zs =
              omega (arith, ap length front, length-append chunk zs) in
            let later =
              read_until-Leaves want cs (got ++ chunk) zs more k back
                (omega (arith, length-append got chunk, sizes)) in
            let joined : (got ++ chunk) ++ zs ≡ got ++ bytes =
              append_assoc got chunk zs ∙ ap (λ l. got ++ l) (sym front) in
            rw whole
              (record { taken = later.taken ∙ joined; rest = later.rest; chunks = later.chunks }))
      | inr part ↦
          (let (zs, front, back) =
              prefix_split bytes chunk more (concat cs) (sym e) (ground arith) in
            rw part (
              part_Leaves (want - length got) chunk got bytes more zs cs (sym room) (ground arith)
                front back k))
    ])
