-- ===== src/Ppp/Pap/Laws.antt =====
-- What opens PAP.
use zeronat.Base.{refl, ℕ, List, ◌≡◌, ◌⊎◌, arith, get_or}
use zeronat.Ppp.Pap.{
  State, react, send_configure_request, Pap, handle, opened, req_sent, code_from_u8, configure_ack,
  Code,
}

react_opened :
    (c : Code) (s : State) (p : Pap)
    → p.state ≡ s
    → (react c s p).0.state ≡ opened
    → (s ≡ opened) ⊎ ((s ≡ req_sent) × (c ≡ configure_ack))
unfolding react send_configure_request
react_opened c s p e h = ground arith

-- PAP is open after a packet only if it was before, or if an Authenticate-Ack has answered its
-- request.
pub handle_opened :
    (p : Pap) (pkt : List ℕ)
    → (handle p pkt).0.state ≡ opened
    → (p.state ≡ opened) ⊎ ((p.state ≡ req_sent) × (code_from_u8 (get_or pkt 2 0) ≡ configure_ack))
unfolding handle
handle_opened p pkt h = ground (arith, react_opened (code_from_u8 (get_or pkt 2 0)) p.state p refl)
