-- ===== src/Noise/Replay.antt =====
-- The replay window against what it stands for: the list of all nonces accepted so far.
use Prim.Native.Nat.{max, bit_or}
use zeronat.Base.{
  ℕ, ◌-◌, ◌*◌, ◌%◌, ◌^◌, ◌≤◌, ◌<◌, ◌≡◌, List, [], ◌∷◌, Option, none, some, Bool, true, false, not,
  ◌&&◌, ◌||◌, if◌then◌else◌, ltb, leb, ◌==◌, arith, refl, ap, sym, ◌∙◌, Bool-cases, inl, inr,
}
use zeronat.Base.Digits.{
  bit, bit-bit_or, bit_shifted, bit_below_shift, bit_remainder, bit_one, bit_pow_self,
  bit_pow_other,
}
use zeronat.Noise.Window.{ReplayWindow}

unfoldable pub elem : ℕ → List ℕ → Bool
elem n [] = false
elem n (m ∷ ms) = n == m || elem n ms

abbrev max_with : ℕ → Option ℕ → ℕ
max_with n none = n
max_with n (some m) = max n m

-- The highest of the accepted nonces.
unfoldable pub top : List ℕ → Option ℕ
top [] = none
top (n ∷ ns) = some (max_with n (top ns))

abbrev pub admits_behind : Option ℕ → List ℕ → ℕ → Bool
admits_behind none accepted n = true
admits_behind (some h) accepted n = ltb h n || (ltb (h - n) 128 && not (elem n accepted))

-- The rule: a nonce above all accepted ones, or one of the last 128 that is not among them.
unfoldable pub admits : List ℕ → ℕ → Bool
admits accepted n = admits_behind (top accepted) accepted n

unfoldable pub as_digit : Bool → ℕ
as_digit true = 1
as_digit false = 0

-- The window stands for the accepted nonces: it has the highest one, and a digit for each of the last
-- 128.
pub record Refines (w : ReplayWindow) (accepted : List ℕ) : Type 0 where
  pub same_top : w.highest ≡ top accepted
  pub digits :
      (h n : ℕ)
      → top accepted ≡ some h
      → n ≤ h
      → h - n < 128
      → bit w.seen (h - n) ≡ as_digit (elem n accepted)

pub top-none : (n : ℕ) (ms : List ℕ) → top ms ≡ none → elem n ms ≡ false
unfolding top elem
top-none n [] e = refl
top-none n (m ∷ ms) e = absurd cc

below_top :
    (n m h : ℕ) (ms : List ℕ) (o : Option ℕ)
    → top ms ≡ o
    → (n == m || elem n ms) ≡ true
    → max_with m o ≡ h
    → ((k : ℕ) → o ≡ some k → elem n ms ≡ true → n ≤ k)
    → n ≤ h
below_top n m h ms none t e x ih = ground (arith, top-none n ms t)
below_top n m h ms (some k) t e x ih = elim (Bool-cases (elem n ms)) [
  | inl r ↦ omega (arith, ih k refl r)
  | inr r ↦ ground arith
]

elem-top : (n h : ℕ) (accepted : List ℕ) → elem n accepted ≡ true → top accepted ≡ some h → n ≤ h
unfolding elem top
elem-top n h [] e t = absurd cc
elem-top n h (m ∷ ms) e t =
    let ih : (k : ℕ) → top ms ≡ some k → elem n ms ≡ true → n ≤ k = λ k q r. elem-top n k ms r q in
    let greatest : max_with m (top ms) ≡ h = cc in below_top n m h ms (top ms) refl e greatest ih

-- Above the highest accepted nonce nothing is accepted.
pub fresh : (n h : ℕ) (accepted : List ℕ) → top accepted ≡ some h → h < n → elem n accepted ≡ false
fresh n h accepted t b = elim (Bool-cases (elem n accepted)) [
  | inl e ↦ (let low = elem-top n h accepted e t in absurd (omega (arith, low)))
  | inr e ↦ e
]

-- The digits of a window that moves on.
unfoldable pub advanced : ℕ → ℕ → ℕ
advanced seen advance = if leb 128 advance then 1 else bit_or (seen * 2 ^ advance % 2 ^ 128) 1

module _ (seen advance d : ℕ) where
  marked_one : (x : ℕ) → 0 < d → bit (bit_or x 1) d ≡ bit x d
  marked_one x h = bit-bit_or d x 1 ∙ omega (arith, bit_one d h)

  advanced_new : d ≡ 0 → bit (advanced seen advance) d ≡ 1
  unfolding advanced bit
  advanced_new h = elim (Bool-cases (leb 128 advance)) [
    | inl e ↦ rw (e, h) (bit_pow_self 0)
    | inr e ↦ rw (e, h) (bit-bit_or 0 (seen * 2 ^ advance % 2 ^ 128) 1 ∙ omega arith)
  ]

  advanced_between : 0 < d → d < advance → d < 128 → bit (advanced seen advance) d ≡ 0
  unfolding advanced
  advanced_between p h b = elim (Bool-cases (leb 128 advance)) [
    | inl e ↦ rw e (bit_one d p)
    | inr e ↦ rw e (marked_one _ p ∙ bit_remainder 128 d _ b ∙ bit_below_shift advance d seen h)
  ]

  advanced_old :
      advance ≤ d → 0 < advance → d < 128 → bit (advanced seen advance) d ≡ bit seen (d - advance)
  unfolding advanced
  advanced_old h p b =
      (let near : leb 128 advance ≡ false = ground arith in
        rw near (
          marked_one _ (omega arith)
          ∙ bit_remainder 128 d _ b
          ∙ bit_shifted advance (d - advance) d seen (omega arith)))

top_cons :
    (accepted : List ℕ) (h n k : ℕ)
    → top accepted ≡ some h
    → top (n ∷ accepted) ≡ some k
    → k ≡ max n h
unfolding top
top_cons accepted h n k t q =
    let both : some (max n h) ≡ some k = ap (λ o. some (max_with n o)) (sym t) ∙ q in cc

pub as_digit_le : (b : Bool) → as_digit b ≤ 1
unfolding as_digit
as_digit_le true = omega arith
as_digit_le false = omega arith

module _ (w : ReplayWindow) (accepted : List ℕ) (h n : ℕ) (r : Refines w accepted)
    (t : top accepted ≡ some h) where
  digits_advanced :
      (m : ℕ)
      → h < n
      → m ≤ n
      → n - m < 128
      → bit (advanced w.seen (n - h)) (n - m) ≡ as_digit (m == n || elem m accepted)
  unfolding as_digit
  digits_advanced m b le near = elim (Bool-cases (m == n)) [
    | inl e ↦ rw e (advanced_new w.seen (n - h) (n - m) (ground arith))
    | inr e ↦ elim (Bool-cases (ltb h m)) [
      | inl a ↦
          rw (e, fresh m h accepted t (ground arith))
            (advanced_between w.seen (n - h) (n - m) (ground arith) (ground arith) near)
      | inr a ↦
          (let old : n - m - (n - h) ≡ h - m = ground arith in
            rw e (
              advanced_old w.seen (n - h) (n - m) (ground arith) (omega arith) near
              ∙ ap (bit w.seen) old
              ∙ r.digits h m t (ground arith) (ground arith)))
    ]
  ]

  digits_marked :
      (m : ℕ)
      → n ≤ h
      → m ≤ h
      → h - m < 128
      → bit (bit_or w.seen (2 ^ (h - n))) (h - m) ≡ as_digit (m == n || elem m accepted)
  unfolding as_digit
  digits_marked m b le near =
      let before : bit w.seen (h - m) ≡ as_digit (elem m accepted) = r.digits h m t le near in
      bit-bit_or (h - m) w.seen (2 ^ (h - n)) ∙ elim (Bool-cases (m == n)) [
        | inl e ↦
            (let here : h - m ≡ h - n = ground arith in
              let set : bit (2 ^ (h - n)) (h - m) ≡ 1 =
                ap (bit (2 ^ (h - n))) here ∙ bit_pow_self (h - n) in
              rw e (omega (arith, before, set, as_digit_le (elem m accepted))))
        | inr e ↦
            (let clear : bit (2 ^ (h - n)) (h - m) ≡ 0 =
                bit_pow_other (h - n) (h - m) (λ x. absurd (ground arith)) in
              rw e (omega (arith, before, clear)))
      ]

  -- A nonce above the highest one.
  pub advanced-Refines :
      h < n → Refines (record { highest = some n; seen = advanced w.seen (n - h) }) (n ∷ accepted)
  unfolding elem top
  advanced-Refines b = record {
    same_top =
        (let greatest : n ≡ max n h = omega arith in
          ap (λ k. some k) greatest ∙ ap (λ o. some (max_with n o)) (sym t));
    digits = λ k m q le near.
        (let k_is : k ≡ n = omega (arith, top_cons accepted h n k t q) in
          ap (λ x. bit (advanced w.seen (n - h)) (x - m)) k_is
          ∙ digits_advanced m b (omega arith) (omega arith));
  }

  -- An old nonce that the window has a digit for.
  pub marked-Refines :
      n ≤ h → h - n < 128 → Refines (record w { seen = bit_or w.seen (2 ^ (h - n)) }) (n ∷ accepted)
  unfolding elem top
  marked-Refines b c = record {
    same_top =
        (let greatest : h ≡ max n h = omega arith in
          r.same_top ∙ t ∙ ap (λ k. some k) greatest ∙ ap (λ o. some (max_with n o)) (sym t));
    digits = λ k m q le near.
        (let k_is : k ≡ h = omega (arith, top_cons accepted h n k t q) in
          ap (λ x. bit (bit_or w.seen (2 ^ (h - n))) (x - m)) k_is
          ∙ digits_marked m b (omega arith) (omega arith));
  }
