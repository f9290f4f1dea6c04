-- ===== src/Ppp/Pap.antt =====
-- src/pppoe/ppp/pap.rs: the PAP client of RFC 1334.
pub mod Laws
use zeronat.Base.{ℕ, ◌+◌, ◌%◌, List, [], ◌∷◌, ltb, if◌then◌else◌, length, get_or, u16_be}
use zeronat.Ppp.Wire.{
  ProtocolType, Code, configure_req, configure_ack, configure_nack, code_from_u8, PppPayload, ppp,
  Packet,
}

pub data State : Type 0 where
  closed req_sent opened : State

pub record Pap : Type 0 where
  pub state : State
  pub id : ℕ  -- u8
  pub username : List ℕ
  pub password : List ℕ

unfoldable pub new : List ℕ → List ℕ → Pap
new username password = record { state = closed; id = 1; username = username; password = password }

unfoldable pub send_configure_request : Pap → Pap × Packet
send_configure_request p = (
  record p { id = (p.id + 1) % 256 },
  record {
    proto = ProtocolType.pap;
    payload = ppp configure_req ((p.id + 1) % 256) (PppPayload.pap p.username p.password);
  },
)

-- From `Closed` the state changes; from any other the request alone is sent.
abbrev opening : State → State
opening closed = req_sent
opening s = s

unfoldable pub open_pap : Pap → Pap × Packet
unfolding send_configure_request
open_pap p = send_configure_request (record p { state = opening p.state })

unfoldable pub close : Pap → Pap
close p = record p { state = closed }

-- The `match` of `handle`.
react : Code → State → Pap → Pap × List Packet
unfolding send_configure_request
react configure_ack req_sent p = (record p { state = opened }, [])
react configure_nack req_sent p = let (p', request) = send_configure_request p in (p', request ∷ [])
react _ _ p = (p, [])

unfoldable pub handle : Pap → List ℕ → Pap × List Packet
unfolding react
handle p pkt =
    if ltb (length pkt) 6
    then (p, [])
    else if ltb (length pkt) (u16_be (get_or pkt 4 0) (get_or pkt 5 0) + 2)
    then (p, [])
    else react (code_from_u8 (get_or pkt 2 0)) p.state p
