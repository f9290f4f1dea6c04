-- ===== src/Ppp/Negotiation/Cases.antt =====
-- The two outcomes of `handle`: the packet is dropped by its framing, or it is dispatched.
use zeronat.Base.{ℕ, ◌+◌, inl, inr, Bool-cases, List, [], ltb, length, take, get_or, u16_be}
use zeronat.Ppp.Wire.{Code, code_from_u8, Packet}
use zeronat.Ppp.Fsm.{Protocol, OptionFsm, rearm, dispatch, handle}

-- The code of a control packet, and its body as far as the length field says.
abbrev pub packet_code : List ℕ → Code
packet_code pkt = code_from_u8 (get_or pkt 2 0)

abbrev pub packet_body : List ℕ → List ℕ
packet_body pkt = take (u16_be (get_or pkt 4 0) (get_or pkt 5 0) + 2) pkt

module _ {κ} {P : Type 0} (pr : Protocol P) (Goal : OptionFsm P × List Packet → Type κ) where
  pub handle_cases :
      (f : OptionFsm P) (pkt : List ℕ)
      → Goal (f, [])
      → Goal (
          dispatch pr
            (packet_code pkt)
            (rearm pr (packet_code pkt) f)
            (get_or pkt 3 0)
            (packet_body pkt))
      → Goal (handle pr f pkt)
  unfolding handle
  handle_cases f pkt dropped framed = elim (Bool-cases (ltb (length pkt) 6)) [
    | inl t ↦ rw t dropped
    | inr t ↦ rw t (elim (Bool-cases (ltb (u16_be (get_or pkt 4 0) (get_or pkt 5 0)) 4)) [
      | inl u ↦ rw u dropped
      | inr u ↦
          rw u
            (elim (Bool-cases (ltb (length pkt) (u16_be (get_or pkt 4 0) (get_or pkt 5 0) + 2))) [
              | inl v ↦ rw v dropped
              | inr v ↦ rw v framed
            ])
    ])
  ]
