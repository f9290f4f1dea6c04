-- ===== src/Noise/Refinement.antt =====
-- `check_and_mark` implements the rule on the list of accepted nonces, over any sequence of them.
use Prim.Native.Nat.{bit_and}
use zeronat.Base.{
  ℕ, ◌-◌, ◌^◌, ◌≤◌, ◌<◌, ◌≡◌, List, [], ◌∷◌, Option, none, some, Bool, true, false, not, ◌&&◌, ◌||◌,
  if◌then◌else◌, ltb, leb, ◌==◌, arith, refl, sym, ◌∙◌, Bool-cases, Option-cases, inl, inr,
}
use zeronat.Base.Digits.{bit, bit_and-pow, bit_pow_self, bit_one}
use native.Mathlib.Nat.{one-le-pow}
use zeronat.Noise.Symmetric.{Error, outside_window, replayed}
use zeronat.Noise.Replay.{
  admits, Refines, top, elem, as_digit, advanced, top-none, fresh, advanced-Refines, marked-Refines,
}
use zeronat.Noise.Window.{ReplayWindow, check_behind, check_from, check_and_mark, empty_window}

unfoldable pub accepts : Option Error → Bool
accepts none = true
accepts (some e) = false

-- The nonces accepted, behind one more.
unfoldable pub with_next : List ℕ → ℕ → List ℕ
with_next accepted n = if admits accepted n then n ∷ accepted else accepted

-- The step of the window is the step of the rule.
Follows : List ℕ → ℕ → ReplayWindow × Option Error → Type 0
Follows accepted n (w, e) = (accepts e ≡ admits accepted n) × Refines w (with_next accepted n)

-- The window of one nonce.
first_digit : (n h m : ℕ) → n ≡ h → m ≤ h → bit 1 (h - m) ≡ as_digit (m == n || false)
unfolding as_digit
first_digit n h m e le = elim (Bool-cases (m == n)) [
  | inl same ↦ (let here : h - m ≡ 0 = ground arith in rw (same, here) (bit_pow_self 0))
  | inr other ↦ rw other (bit_one (h - m) (ground arith))
]

admits_is :
    (accepted : List ℕ) (h n : ℕ)
    → top accepted ≡ some h
    → admits accepted n ≡ (ltb h n || (ltb (h - n) 128 && not (elem n accepted)))
unfolding admits
admits_is accepted h n t = rw t refl

follow_yes :
    (accepted : List ℕ) (n : ℕ) (w : ReplayWindow)
    → admits accepted n ≡ true
    → Refines w (n ∷ accepted)
    → Follows accepted n (w, none)
unfolding Follows accepts with_next
follow_yes accepted n w a r = (sym a, rw a r)

follow_no :
    (accepted : List ℕ) (n : ℕ) (w : ReplayWindow) (e : Error)
    → admits accepted n ≡ false
    → Refines w accepted
    → Follows accepted n (w, some e)
unfolding Follows accepts with_next
follow_no accepted n w e a r = (sym a, rw a r)

first_nonce :
    (accepted : List ℕ) (n : ℕ)
    → top accepted ≡ none
    → Follows accepted n (record { highest = some n; seen = 1 }, none)
unfolding Follows accepts admits with_next top elem as_digit
first_nonce [] n t =
    (refl, record { same_top = refl; digits = λ h m q le near. first_digit n h m (cc) le })
first_nonce (m ∷ ms) n t = absurd cc

-- The digit that the mask takes out.
masked :
    (w : ReplayWindow) (accepted : List ℕ) (h n : ℕ)
    → Refines w accepted
    → top accepted ≡ some h
    → n ≤ h
    → h - n < 128
    → (bit_and w.seen (2 ^ (h - n)) == 0) ≡ not (elem n accepted)
unfolding as_digit
masked w accepted h n r t b c =
    let digit : bit w.seen (h - n) ≡ as_digit (elem n accepted) = r.digits h n t b c in
    let power : 1 ≤ 2 ^ (h - n) = one-le-pow (h - n) 2 (omega arith) in
    rw (bit_and-pow (h - n) w.seen, digit)
      (elim (Bool-cases (elem n accepted)) [
        | inl e ↦ rw e (ground arith)
        | inr e ↦ rw e (ground arith)
      ])

behind :
    (w : ReplayWindow) (accepted : List ℕ) (h n : ℕ)
    → Refines w accepted
    → top accepted ≡ some h
    → Follows accepted n (check_behind w h n)
unfolding check_behind advanced
behind w accepted h n r t = elim (Bool-cases (ltb h n)) [
  | inl above ↦ rw above (
      follow_yes accepted n _ (admits_is accepted h n t ∙ ground arith)
        (advanced-Refines w accepted h n r t (ground arith)))
  | inr e ↦ rw e (elim (Bool-cases (leb 128 (h - n))) [
    | inl far ↦
        rw far (follow_no accepted n w outside_window (admits_is accepted h n t ∙ ground arith) r)
    | inr near ↦ rw near (elim (Bool-cases (elem n accepted)) [
      | inl seen ↦
          rw (masked w accepted h n r t (ground arith) (ground arith), seen)
            (follow_no accepted n w replayed (admits_is accepted h n t ∙ ground arith) r)
      | inr unseen ↦
          rw (masked w accepted h n r t (ground arith) (ground arith), unseen)
            (follow_yes accepted n _ (admits_is accepted h n t ∙ ground arith)
              (marked-Refines w accepted h n r t (ground arith) (ground arith)))
    ])
  ])
]

check_from-Follows :
    (w : ReplayWindow) (accepted : List ℕ) (n : ℕ) (o : Option ℕ)
    → top accepted ≡ o
    → Refines w accepted
    → Follows accepted n (check_from o w n)
check_from-Follows w accepted n none t r = first_nonce accepted n t
check_from-Follows w accepted n (some h) t r = behind w accepted h n r t

-- A window that stands for a list of accepted nonces takes the next nonce if and only if the rule on
-- the list admits it, and then stands for the list with that nonce, else for the same list.
pub check_and_mark-Refines :
    (w : ReplayWindow) (accepted : List ℕ) (n : ℕ)
    → Refines w accepted
    → (accepts (check_and_mark w n).1 ≡ admits accepted n)
      × Refines (check_and_mark w n).0 (with_next accepted n)
unfolding check_and_mark Follows
check_and_mark-Refines w accepted n r = check_from-Follows w accepted n w.highest (sym r.same_top) r

-- The nonces accepted of a sequence, the latest first.
unfoldable pub run_window : ReplayWindow → List ℕ → List ℕ → List ℕ
run_window w accepted [] = accepted
run_window w accepted (n ∷ ns) =
    let (w', e) = check_and_mark w n in
    run_window w' (if accepts e then n ∷ accepted else accepted) ns

-- No nonce is there twice.
unfoldable pub Distinct : List ℕ → Type 0
Distinct [] = Unit
Distinct (n ∷ ns) = (elem n ns ≡ false) × Distinct ns

pub admits_fresh : (accepted : List ℕ) (n : ℕ) → admits accepted n ≡ true → elem n accepted ≡ false
admits_fresh accepted n a = elim (Option-cases (top accepted)) [
  | inl t ↦ top-none n accepted t
  | inr (h, t) ↦ elim (Bool-cases (ltb h n)) [
    | inl above ↦ fresh n h accepted t (ground arith)
    | inr e ↦
        (let rule : (ltb h n || (ltb (h - n) 128 && not (elem n accepted))) ≡ true =
            sym (admits_is accepted h n t) ∙ a in
          ground arith)
  ]
]

with_next-Distinct :
    (accepted : List ℕ) (n : ℕ) → Distinct accepted → Distinct (with_next accepted n)
unfolding Distinct with_next
with_next-Distinct accepted n d = elim (Bool-cases (admits accepted n)) [
  | inl a ↦ rw a (admits_fresh accepted n a, d)
  | inr a ↦ rw a d
]

run_from :
    (ns : List ℕ) (w : ReplayWindow) (accepted : List ℕ)
    → Refines w accepted
    → Distinct accepted
    → Distinct (run_window w accepted ns)
unfolding run_window with_next
run_from [] w accepted r d = d
run_from (n ∷ ns) w accepted r d =
    let (same, next) = check_and_mark-Refines w accepted n r in
    rw same (
      run_from ns (check_and_mark w n).0 (with_next accepted n) next
        (with_next-Distinct accepted n d))

pub empty_window-Refines : Refines empty_window []
unfolding empty_window top
empty_window-Refines = record { same_top = refl; digits = λ h n q le near. absurd cc }

-- Of any sequence of nonces, a new window accepts none twice.
pub run_window-Distinct : (ns : List ℕ) → Distinct (run_window empty_window [] ns)
unfolding Distinct
run_window-Distinct ns = run_from ns empty_window [] empty_window-Refines tt
