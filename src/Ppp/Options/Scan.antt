-- ===== src/Ppp/Options/Scan.antt =====
-- `parse_options` against the list of options that a packet holds.
use mathlib.Core.List.{foldl}
use zeronat.Base.{
  ltb, Bool-cases, inl, inr, ℕ, zero, suc, ◌<◌, IsByte, take-append-drop, length-take, sym, ◌+◌,
  ◌-◌, ◌%◌, ◌≤◌, ◌≡◌, ◌≢◌, refl, ◌∙◌, ap, List, [], ◌∷◌, ◌++◌, length, take, drop, length-drop,
  length-append, take-append, drop-append, All, arith, append-nil, append_assoc,
}
use zeronat.Ppp.Wire.{OptionVal}
use zeronat.Ppp.Wire.Emit.{render_option, render_options}
use zeronat.Ppp.Options.{Parsed, done, stuck, can_slice, options_loop, parse_options}

abbrev collect : List OptionVal → ℕ → List ℕ → List OptionVal
collect os code body = os ++ (record { code = code; body = body } ∷ [])

-- The options in front of the end of the packet or of the first malformed one, and how it ends.
unfoldable pub scan : List ℕ → List OptionVal × Parsed
unfolding parse_options
scan packet = parse_options collect [] packet

options_loop-ne-stuck {ℓ} :
    {S : Type ℓ} (f : S → ℕ → List ℕ → S) (fuel : ℕ) (s : S) (packet : List ℕ)
    → length packet ≤ fuel
    → (options_loop f fuel s packet).1 ≢ stuck
unfolding options_loop
options_loop-ne-stuck f fuel s [] h e = cc
options_loop-ne-stuck f zero s (c ∷ rest) h e = absurd (omega arith)
options_loop-ne-stuck f (suc fuel) s (c ∷ []) h e = cc
options_loop-ne-stuck f (suc fuel) s (c ∷ len ∷ rest) h e = ground (
  arith,
  length-drop (len - 2) rest,
  options_loop-ne-stuck f fuel (f s c (take (len - 2) rest)) (drop (len - 2) rest),
)

-- The walk ends on every packet: its loop does not run out of rounds, and none of its slices is out
-- of order or behind the packet, so that it does not panic.
pub parse_options-ne-stuck :
    {S : Type 0} (f : S → ℕ → List ℕ → S) (s : S) (packet : List ℕ)
    → (parse_options f s packet).1 ≢ stuck
unfolding parse_options
parse_options-ne-stuck f s packet = options_loop-ne-stuck f (length packet) s packet (omega arith)

abbrev pub step {ℓ} : {S : Type ℓ} → (S → ℕ → List ℕ → S) → S → OptionVal → S
step f s o = f s o.code o.body

foldl-snoc {ℓ} :
    {S : Type ℓ} (f : S → ℕ → List ℕ → S) (s : S) (os : List OptionVal) (o : OptionVal)
    → foldl (step f) s (os ++ (o ∷ [])) ≡ step f (foldl (step f) s os) o
foldl-snoc f s [] o = refl
foldl-snoc f s (p ∷ os) o = foldl-snoc f (step f s p) os o

options_loop-foldl {ℓ} :
    {S : Type ℓ} (f : S → ℕ → List ℕ → S) (s : S) (fuel : ℕ) (os : List OptionVal) (packet : List ℕ)
    → options_loop f fuel (foldl (step f) s os) packet ≡ (
      foldl (step f) s (options_loop collect fuel os packet).0,
      (options_loop collect fuel os packet).1,
    )
unfolding options_loop
options_loop-foldl f s fuel os [] = refl
options_loop-foldl f s zero os (c ∷ rest) = refl
options_loop-foldl f s (suc fuel) os (c ∷ []) = refl
options_loop-foldl f s (suc fuel) os (c ∷ len ∷ rest) =
    let body = take (len - 2) rest in
    ground (
      arith,
      foldl-snoc f s os (record { code = c; body = body }),
      options_loop-foldl f s fuel (collect os c body) (drop (len - 2) rest),
    )

-- The closure is applied to the scanned options in their order, and to nothing else.
pub parse_options-scan :
    {S : Type 0} (f : S → ℕ → List ℕ → S) (s : S) (packet : List ℕ)
    → parse_options f s packet ≡ (foldl (step f) s (scan packet).0, (scan packet).1)
unfolding parse_options scan
parse_options-scan f s packet = options_loop-foldl f s (length packet) [] packet

-- A body that fits the one-byte length field.
abbrev pub IsShort : OptionVal → Type 0
IsShort o = length o.body ≤ 253

one_option :
    (acc : List OptionVal) (o : OptionVal) (fuel : ℕ) (rest : List ℕ)
    → IsShort o
    → options_loop collect (suc fuel) acc (render_option o ++ rest)
      ≡ options_loop collect fuel (acc ++ (o ∷ [])) rest
unfolding options_loop render_option
one_option acc o fuel rest h = ground (
  arith,
  length-append o.body rest,
  take-append o.body rest,
  drop-append o.body rest,
  ap (λ (n : ℕ). take n (o.body ++ rest)) len_back,
  ap (λ (n : ℕ). drop n (o.body ++ rest)) len_back,
)
  where
    len_back : (length o.body % 256 + 2) % 256 - 2 ≡ length o.body
    len_back = omega arith

loop-render :
    (os acc : List OptionVal) (fuel : ℕ)
    → All IsShort os
    → length (render_options os) ≤ fuel
    → options_loop collect fuel acc (render_options os) ≡ (acc ++ os, done)
unfolding render_options
loop-render [] acc fuel h hf = unfold options_loop in rw append-nil
loop-render (o ∷ os) acc zero h hf =
    absurd
      (unfold render_option in omega (arith, length-append (render_option o) (render_options os)))
loop-render (o ∷ os) acc (suc fuel) (ho, hos) hf =
    one_option acc o fuel (render_options os) ho
    ∙ loop-render os (acc ++ (o ∷ [])) fuel hos
        (unfold render_option in omega (arith, length-append (render_option o) (render_options os)))
    ∙ ap (λ l. (l, done)) (append_assoc acc (o ∷ []) os)

-- Scanning the bytes that the emitter writes for options with bodies of at most 253 bytes gives
-- these options back.
pub scan-render : (os : List OptionVal) → All IsShort os → scan (render_options os) ≡ (os, done)
unfolding scan parse_options
scan-render os h = loop-render os [] (length (render_options os)) h (omega arith)

render_options-append :
    (xs ys : List OptionVal) → render_options (xs ++ ys) ≡ render_options xs ++ render_options ys
unfolding render_options
render_options-append [] ys = refl
render_options-append (x ∷ xs) ys =
    rw (render_options-append xs ys) (sym (append_assoc (render_option x) _ _))

render-one : (o : OptionVal) → render_options (o ∷ []) ≡ render_option o
unfolding render_options
render-one o = append-nil (render_option o)

taken :
    (len : ℕ) (rest : List ℕ)
    → 2 ≤ len
    → len ≤ length rest + 2
    → length (take (len - 2) rest) ≡ len - 2
taken len rest h k = omega (arith, length-take (len - 2) rest)

render_option-parts :
    (c len : ℕ) (rest : List ℕ)
    → len < 256
    → 2 ≤ len
    → len ≤ length rest + 2
    → render_option (record { code = c; body = take (len - 2) rest }) ++ drop (len - 2) rest
      ≡ c ∷ len ∷ rest
unfolding render_option
render_option-parts c len rest hb h k =
    ground (arith, taken len rest, take-append-drop (len - 2) rest)

All-drop : (n : ℕ) (xs : List ℕ) → All IsByte xs → All IsByte (drop n xs)
All-drop zero xs h = h
All-drop (suc n) [] h = h
All-drop (suc n) (x ∷ xs) (hx, hxs) = All-drop n xs hxs

loop-exact :
    (fuel : ℕ) (acc : List OptionVal) (packet : List ℕ)
    → All IsByte packet
    → (options_loop collect fuel acc packet).1 ≡ done
    → render_options (options_loop collect fuel acc packet).0 ≡ render_options acc ++ packet
unfolding options_loop
loop-exact fuel acc [] hp e = sym (append-nil _)
loop-exact zero acc (c ∷ rest) hp e = cc
loop-exact (suc fuel) acc (c ∷ []) hp e = cc
loop-exact (suc fuel) acc (c ∷ len ∷ rest) (hc, (hl, hr)) e =
    let o : OptionVal = record { code = c; body = take (len - 2) rest } in
    ground (
      arith,
      loop-exact fuel (collect acc c (take (len - 2) rest)) (drop (len - 2) rest)
          (All-drop (len - 2) rest hr),
      render_options-append acc (o ∷ []),
      render-one o,
      append_assoc (render_options acc) (render_option o) (drop (len - 2) rest),
      render_option-parts c len rest,
    )

-- A packet that is scanned to its end is, byte for byte, what the emitter writes for the options
-- that were found.
pub render-scan :
    (packet : List ℕ)
    → All IsByte packet
    → (scan packet).1 ≡ done
    → render_options (scan packet).0 ≡ packet
unfolding scan parse_options
render-scan packet h e = loop-exact (length packet) [] packet h e ∙ unfold render_options in refl

options_loop_inv {ℓ κ} :
    {S : Type ℓ} (Keeps : S → Type κ) (f : S → ℕ → List ℕ → S)
    → ((s : S) (code : ℕ) (body : List ℕ) → Keeps s → Keeps (f s code body))
    → (fuel : ℕ) (s : S) (packet : List ℕ) → Keeps s
    → Keeps (options_loop f fuel s packet).0
unfolding options_loop
options_loop_inv Keeps f keep fuel s [] h = h
options_loop_inv Keeps f keep zero s (c ∷ rest) h = h
options_loop_inv Keeps f keep (suc fuel) s (c ∷ []) h = h
options_loop_inv Keeps f keep (suc fuel) s (c ∷ len ∷ rest) h =
    let body = take (len - 2) rest in
    elim (Bool-cases (ltb (length (c ∷ len ∷ rest)) len)) [
      | inl over ↦ rw over h
      | inr fits ↦ rw fits (elim (Bool-cases (ltb len 2)) [
        | inl short ↦ rw short h
        | inr long ↦ rw long (elim (Bool-cases (can_slice 2 len (length (c ∷ len ∷ rest)))) [
          | inl whole ↦ rw whole (
              options_loop_inv Keeps f keep fuel (f s c body) (drop (len - 2) rest)
                (keep s c body h))
          | inr cut ↦ rw cut h
        ])
      ])
    ]

-- What each call of the closure keeps holds when the walk ends, at its end or at a malformed option.
pub parse_options_inv {ℓ κ} :
    {S : Type ℓ} (Keeps : S → Type κ) (f : S → ℕ → List ℕ → S)
    → ((s : S) (code : ℕ) (body : List ℕ) → Keeps s → Keeps (f s code body))
    → (s : S) (packet : List ℕ) → Keeps s
    → Keeps (parse_options f s packet).0
unfolding parse_options
parse_options_inv Keeps f keep s packet h = options_loop_inv Keeps f keep (length packet) s packet h
