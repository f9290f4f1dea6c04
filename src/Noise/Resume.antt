-- ===== src/Noise/Resume.antt =====
-- A `fill` that waits can be dropped: the next one goes on from the state, and ends as one that had
-- all the bytes.
use zeronat.Base.{
  ℕ, suc, ◌-◌, ◌≡◌, ◌≤◌, List, [], ◌∷◌, ◌++◌, Bool, true, false, length, ltb, leb, arith, refl, ap,
  sym, ◌∙◌, Bool-cases, inl, inr, Option, none, some, ◌≢◌,
}
use zeronat.Noise.Primitives.{Primitives}
use zeronat.Noise.Stream.{
  read_until, Taken, NoiseReader, stopped, fill_body, Fill, waits, decrypted_frame, after_body,
  after_len, with_len, fill,
}
use zeronat.Noise.Frames.{Resumes, read_until-Resumes}

read_until_full :
    (want : ℕ) (got : List ℕ) (src : List (List ℕ))
    → want ≤ length got
    → read_until want got src ≡ record { got = got; left = src; closed = false }
unfolding read_until
read_until_full want got [] h = refl
read_until_full want got ([] ∷ cs) h =
    (let enough : ltb (length got) want ≡ false = ground arith in rw enough refl)
read_until_full want got ((b ∷ bs) ∷ cs) h =
    (let enough : leb want (length got) ≡ true = ground arith in rw enough refl)

-- A loop that has got enough leaves what comes later.
Extends : ℕ → List (List ℕ) → Taken → Taken → Type 0
Extends want more t t' = want ≤ length t.got → t' ≡ record t { left = t.left ++ more }

read_until-Extends :
    (want : ℕ) (src more : List (List ℕ)) (got : List ℕ)
    → Extends want more (read_until want got src) (read_until want got (src ++ more))
unfolding read_until Extends
read_until-Extends want [] more got = λ h. read_until_full want got more h
read_until-Extends want ([] ∷ cs) more got = λ h. refl
read_until-Extends want ((b ∷ bs) ∷ cs) more got =
    let rest = read_until-Extends want cs more (got ++ (b ∷ bs)) in
    elim (Bool-cases (leb want (length got))) [
      | inl full ↦ rw full (λ h. refl)
      | inr e ↦ rw e (elim (Bool-cases (leb (suc (length bs)) (want - length got))) [
        | inl whole ↦ rw whole rest
        | inr part ↦ rw part (λ h. refl)
      ])
    ]

module _ (c : Primitives) where
  stopped_open : (b : Bool) → stopped b ≡ waits → b ≡ false
  stopped_open true h = absurd cc
  stopped_open false h = refl

  decrypted_ends :
      (r : NoiseReader) (left : List (List ℕ)) (o : Option (List ℕ))
      → (decrypted_frame c r left o).2 ≢ waits
  decrypted_ends r left none = ground arith
  decrypted_ends r left (some pt) = ground arith

  -- What the body's loop has got, when it waits.
  fill_body-resumed :
      (r : NoiseReader) (src more : List (List ℕ))
      → (fill_body c r src).2 ≡ waits
      → let r' : NoiseReader = record r { body = (read_until r.size r.body src).got } in
        ((fill_body c r src).0 ≡ r')
        × ((fill_body c r src).1 ≡ [])
        × (fill_body c r (src ++ more) ≡ fill_body c r' more)
  unfolding fill_body after_body Resumes
  fill_body-resumed r src more w =
      let t = read_until r.size r.body src in
      elim (Bool-cases (ltb (length t.got) r.size)) [
        | inl short ↦
            (let stops : stopped t.closed ≡ waits = rw short at w in
              let (none_left, same) =
                read_until-Resumes r.size src more r.body (stopped_open t.closed stops)
                  (ground arith) in
              (rw short refl, rw short none_left, ap (after_body c r) same))
        | inr full ↦ absurd (decrypted_ends _ _ _ (rw full at w))
      ]

  -- The length, when its loop has got it.
  pub after_len-full :
      (r : NoiseReader) (t : Taken)
      → 2 ≤ length t.got
      → after_len c r t ≡ fill_body c (with_len (record r { len = t.got })) t.left
  unfolding after_len
  after_len-full r t h = (let full : ltb (length t.got) 2 ≡ false = ground arith in rw full refl)

  with_len_has : (r : NoiseReader) → ((with_len r).have_len ≡ true) × ((with_len r).len ≡ r.len)
  unfolding with_len
  with_len_has r = ground arith

  with_len_same : (r : NoiseReader) → r.have_len ≡ true → with_len r ≡ r
  unfolding with_len
  with_len_same r h = ground arith

  -- A reader that has the length goes on with the body.
  fill_has_len :
      (r : NoiseReader) (src : List (List ℕ))
      → r.have_len ≡ true
      → 2 ≤ length r.len
      → fill c r src ≡ fill_body c r src
  unfolding fill
  fill_has_len r src h b =
      ap (after_len c r) (read_until_full 2 r.len src b)
      ∙ after_len-full r _ b
      ∙ ap (λ x. fill_body c x src) (with_len_same r h)

-- If a read of a frame waits for more bytes and is dropped there, it has left nothing of what was
-- delivered, and the next read from the state it has left ends as one read of the same bytes and
-- those that come later would have.
pub fill-resumed :
    (c : Primitives) (r : NoiseReader) (src more : List (List ℕ))
    → (fill c r src).2 ≡ waits
    → ((fill c r src).1 ≡ []) × (fill c r (src ++ more) ≡ fill c (fill c r src).0 more)
unfolding fill after_len Resumes Extends
fill-resumed c r src more w =
    let t = read_until 2 r.len src in
    elim (Bool-cases (ltb (length t.got) 2)) [
      | inl short ↦
          (let stops : stopped t.closed ≡ waits = rw short at w in
            let (none_left, same) =
              read_until-Resumes 2 src more r.len (stopped_open c t.closed stops) (ground arith) in
            (rw short none_left, ap (after_len c r) same ∙ rw short refl))
      | inr full ↦
          (let with_body = with_len (record r { len = t.got }) in
            let enough : 2 ≤ length t.got = ground arith in
            let has = with_len_has c (record r { len = t.got }) in
            let here : fill c r src ≡ fill_body c with_body t.left = after_len-full c r t enough in
            let body_waits : (fill_body c with_body t.left).2 ≡ waits =
              sym (ap (λ (x : NoiseReader × List (List ℕ) × Fill). x.2) here) ∙ w in
            let (state, none_left, same) = fill_body-resumed c with_body t.left more body_waits in
            let later : fill c r (src ++ more) ≡ fill_body c with_body (t.left ++ more) =
              ap (after_len c r) (read_until-Extends 2 src more r.len enough)
              ∙ after_len-full c r (record t { left = t.left ++ more }) enough in
            let long : 2 ≤ length with_body.len = omega (arith, ap length has.1, enough) in
            (
              ap (λ (x : NoiseReader × List (List ℕ) × Fill). x.1) here ∙ none_left,
              later
                  ∙ same
                  ∙ sym (
                      ap (λ (x : NoiseReader × List (List ℕ) × Fill). fill c x.0 more) here
                      ∙ ap (λ x. fill c x more) state
                      ∙ fill_has_len c
                          (record with_body {
                            body = (read_until with_body.size with_body.body t.left).got;
                          })
                          more has.0 long),
            ))
    ]
