-- ===== src/Ppp/Negotiation/Table.antt =====
-- The transition table of the automaton of pppoe/ppp/option_fsm.rs, written out apart from it: where
-- the code of a packet and the answer to it take the state.
use zeronat.Base.{ℕ, ◌+◌, Bool, true, false, List, [], ◌∷◌, length, get_or, u16_be, ◌&&◌, leb}
use zeronat.Ppp.Wire.{
  Code, configure_req, configure_ack, configure_nack, configure_rej, terminate_req, Packet,
}
use zeronat.Ppp.Negotiation.Opening.{is_ack_packet}
use zeronat.Ppp.Fsm.{State, closed, req_sent, ack_received, ack_sent, opened}

-- What is sent for a packet: nothing, a Configure-Ack first, or something else first.
pub data Answer : Type 0 where
  silence positive negative : Answer

abbrev pub ack_or_not : Bool → Answer
ack_or_not true = positive
ack_or_not false = negative

abbrev pub answer : List Packet → Answer
answer [] = silence
answer (p ∷ ps) = ack_or_not (is_ack_packet p)

-- RFC 1661, as far as the source has it: a request that is dropped moves nothing.
abbrev pub after_request : Answer → State → State
after_request silence s = s
after_request positive closed = closed
after_request positive req_sent = ack_sent
after_request positive ack_received = opened
after_request positive ack_sent = ack_sent
after_request positive opened = ack_sent
after_request negative closed = closed
after_request negative req_sent = req_sent
after_request negative ack_received = ack_received
after_request negative ack_sent = req_sent
after_request negative opened = req_sent

abbrev pub after_ack : State → State
after_ack closed = closed
after_ack req_sent = ack_received
after_ack ack_received = req_sent
after_ack ack_sent = opened
after_ack opened = req_sent

-- A Nak or Reject that is answered is answered with a new request.
abbrev pub after_refusal : Answer → State → State
after_refusal silence s = s
after_refusal _ closed = closed
after_refusal _ ack_sent = ack_sent
after_refusal _ _ = req_sent

abbrev pub after_terminate : State → State
after_terminate closed = closed
after_terminate opened = closed
after_terminate _ = req_sent

abbrev pub next_state : Code → Answer → State → State
next_state configure_req a s = after_request a s
next_state configure_ack a s = after_ack s
next_state configure_nack a s = after_refusal a s
next_state configure_rej a s = after_refusal a s
next_state terminate_req a s = after_terminate s
next_state _ a s = s

-- Whether the header is whole and its length field within the packet.
abbrev pub well_framed : List ℕ → Bool
well_framed pkt =
    let len = u16_be (get_or pkt 4 0) (get_or pkt 5 0) in
    leb 6 (length pkt) && (leb 4 len && leb (len + 2) (length pkt))
