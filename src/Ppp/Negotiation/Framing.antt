-- ===== src/Ppp/Negotiation/Framing.antt =====
-- The automaton on packets that the emitter of wire.rs wrote, and on a damaged header.
use zeronat.Base.{
  ℕ, ◌+◌, ◌<◌, ◌≡◌, refl, List, [], ◌∷◌, arith, length, length-append, drop, take_all, All, u16_be,
}
use zeronat.Ppp.Wire.{
  Code, configure_req, code_u8, code_from_u8, OptionVal, options_len, options, ppp, Packet,
}
use zeronat.Ppp.Wire.Emit.{render, render_body, render_payload, render_option, render_options}
use zeronat.Ppp.Options.Scan.{scan, scan-render, IsShort}
use zeronat.Ppp.Options.{done}
use zeronat.Ppp.Fsm.{Protocol, OptionFsm, rearm, dispatch, handle}

length-render_options : (os : List OptionVal) → length (render_options os) ≡ options_len os
unfolding render_options render_option
length-render_options [] = refl
length-render_options (o ∷ os) =
    omega (arith, length-append (render_option o) (render_options os), length-render_options os)

code_from-u8 : (c : Code) → code_from_u8 (code_u8 c) ≡ c
unfolding code_from_u8
code_from-u8 configure_req = refl
code_from-u8 _ = refl

module _ {P : Type 0} (pr : Protocol P) where
  handle_whole :
      (f : OptionFsm P) (c : Code) (p0 p1 id l0 l1 : ℕ) (body : List ℕ)
      → u16_be l0 l1 ≡ length body + 4
      → handle pr f (p0 ∷ p1 ∷ code_u8 c ∷ id ∷ l0 ∷ l1 ∷ body)
        ≡ dispatch pr c (rearm pr c f) id (p0 ∷ p1 ∷ code_u8 c ∷ id ∷ l0 ∷ l1 ∷ body)
  unfolding handle
  handle_whole f c p0 p1 id l0 l1 body e =
      let whole : List ℕ = p0 ∷ p1 ∷ code_u8 c ∷ id ∷ l0 ∷ l1 ∷ body in
      ground (arith, code_from-u8 c, take_all (u16_be l0 l1 + 2) whole)

  -- A packet of options that the emitter writes, and whose length fits its 16-bit field, reaches
  -- the peer's dispatch whole, with the code, the identifier and the options that went in.
  pub handle-render :
      (f : OptionFsm P) (p : Packet) (c : Code) (id : ℕ) (os : List OptionVal)
      → p.payload ≡ ppp c id (options os)
      → All IsShort os
      → options_len os < 65532
      → (handle pr f (render p) ≡ dispatch pr c (rearm pr c f) id (render p))
        × (scan (drop 6 (render p)) ≡ (os, done))
  unfolding render render_body render_payload
  handle-render f p c id os e short h = rw e (
    handle_whole f c _ _ id _ _ (render_options os) (omega (arith, length-render_options os)),
    scan-render os short,
  )
