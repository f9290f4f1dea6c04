-- ===== src/Ppp/Fsm/Receive.antt =====
-- src/pppoe/ppp/option_fsm.rs: the option negotiation automaton of RFC 1661, over a `Protocol`.
-- A method that mutates returns the new automaton; what it hands to `tx` is a list of packets in
-- the order of the calls. Here: the handling of a received control packet.
use zeronat.Base.{
  ℕ, ◌+◌, Bool, true, false, ◌&&◌, Option, none, some, List, [], ◌∷◌, ltb, if◌then◌else◌, length,
  take, drop, get_or, u16_be,
}
use zeronat.Ppp.Wire.{
  Code, configure_req, configure_ack, configure_nack, configure_rej, terminate_req, echo_req,
  echo_reply, discard_req, code_u8, code_from_u8, Payload, Packet,
}
use zeronat.Ppp.Options.{Parsed, done, parse_options}
use zeronat.Ppp.Fsm.Send.{send_configure_request, send_terminate_ack}
use zeronat.Ppp.Fsm.Request.{received_configure_req}
use zeronat.Ppp.Fsm.Defs.{
  Protocol, State, closed, req_sent, ack_received, ack_sent, opened, OptionFsm, link_up,
  enter_closed, is_ack, is_response, stamp_magic, set_head, send_all, not_closed,
}

module _ {P : Type 0} (pr : Protocol P) where
  open pr use {
    protocol, own_options, own_option_nacked, peer_options_start, peer_option_received,
    echo_reply_magic,
  }

  unfoldable pub send_then : State → OptionFsm P → Packet → OptionFsm P × List Packet
  unfolding send_configure_request
  send_then s f resp =
      let (f', req) = send_configure_request pr f in (record f' { state = s }, resp ∷ req ∷ [])

  -- The state change after a reply, by whether it was an Ack.
  unfoldable pub after_reply : Bool → State → OptionFsm P → Packet → OptionFsm P × List Packet
  unfolding send_then
  after_reply acked closed f resp = (f, resp ∷ [])
  after_reply true req_sent f resp = (record f { state = ack_sent }, resp ∷ [])
  after_reply true ack_received f resp = (record f { state = opened; up_seen = true }, resp ∷ [])
  after_reply true ack_sent f resp = (record f { state = ack_sent }, resp ∷ [])
  after_reply true opened f resp = send_then ack_sent f resp
  after_reply false ack_sent f resp = (record f { state = req_sent }, resp ∷ [])
  after_reply false opened f resp = send_then req_sent f resp
  after_reply false _ f resp = (f, resp ∷ [])

  unfoldable pub reply_with : OptionFsm P × Option (Code × Packet) → OptionFsm P × List Packet
  reply_with (f', none) = (f', [])
  reply_with (f', some (code, resp)) = after_reply (is_ack code) f'.state f' resp

  unfoldable pub on_configure_req : OptionFsm P → List ℕ → OptionFsm P × List Packet
  on_configure_req f pkt = reply_with (received_configure_req pr f pkt)

  unfoldable pub send_one : OptionFsm P → OptionFsm P × List Packet
  unfolding send_configure_request
  send_one f = let (f', req) = send_configure_request pr f in (f', req ∷ [])

  unfoldable pub on_configure_ack : State → OptionFsm P → OptionFsm P × List Packet
  unfolding send_one
  on_configure_ack closed f = (f, [])
  on_configure_ack req_sent f = (record f { state = ack_received }, [])
  on_configure_ack ack_sent f = (record f { state = opened; up_seen = true }, [])
  on_configure_ack ack_received f = send_one (record f { state = req_sent })
  on_configure_ack opened f = send_one (record f { state = req_sent })

  -- A Nak or a Reject: each option goes to the protocol, then the request is sent anew.
  unfoldable pub nacked_proto : Bool → OptionFsm P → List ℕ → P × Parsed
  unfolding parse_options
  nacked_proto is_rej f opts =
      parse_options (λ p code body. own_option_nacked p code body is_rej) f.proto opts

  unfoldable pub after_nack : OptionFsm P → P × Parsed → OptionFsm P × List Packet
  unfolding send_one
  after_nack f (p, done) = resend f.state (record f { proto = p })
    where
      resend : State → OptionFsm P → OptionFsm P × List Packet
      resend closed f = (f, [])
      resend ack_sent f = send_one f
      resend _ f = send_one (record f { state = req_sent })
  after_nack f (p, _) = (record f { proto = p }, [])

  unfoldable pub on_configure_nack : Bool → OptionFsm P → List ℕ → OptionFsm P × List Packet
  on_configure_nack is_rej f pkt =
      if ltb (length pkt) 6 then (f, []) else after_nack f (nacked_proto is_rej f (drop 6 pkt))

  unfoldable pub on_terminate_req : State → OptionFsm P → ℕ → OptionFsm P × List Packet
  unfolding enter_closed send_terminate_ack
  on_terminate_req closed f id = (f, [])
  on_terminate_req opened f id = let f' = enter_closed f in (f', send_terminate_ack pr f' id ∷ [])
  on_terminate_req _ f id =
      let f' = record f { state = req_sent } in (f', send_terminate_ack pr f' id ∷ [])

  -- `send_echo_response`: the packet itself, with the code and our magic written over it.
  unfoldable pub send_echo_response : OptionFsm P → List ℕ → Option Packet
  unfolding stamp_magic
  send_echo_response f pkt = reply_from (set_head (code_u8 echo_reply) (drop 2 pkt))
    where
      reply_from : Option (List ℕ) → Option Packet
      reply_from none = none
      reply_from (some body) = some (record {
        proto = protocol f.proto;
        payload = Payload.raw (stamp_magic (echo_reply_magic f.proto) body);
      })

  -- The `match` of `handle` for a state that is not `Closed`.
  unfoldable pub dispatch_live : Code → OptionFsm P → ℕ → List ℕ → OptionFsm P × List Packet
  dispatch_live configure_req f id pkt = on_configure_req f pkt
  dispatch_live configure_ack f id pkt = on_configure_ack f.state f
  dispatch_live configure_nack f id pkt = on_configure_nack false f pkt
  dispatch_live configure_rej f id pkt = on_configure_nack true f pkt
  dispatch_live terminate_req f id pkt = on_terminate_req f.state f id
  dispatch_live _ f id pkt = (f, [])

  -- The `match` of `handle`; the echo and discard arms stand before the `Closed` arm.
  unfoldable pub dispatch : Code → OptionFsm P → ℕ → List ℕ → OptionFsm P × List Packet
  unfolding link_up
  dispatch echo_req f id pkt = (f, if link_up f then send_all (send_echo_response f pkt) else [])
  dispatch discard_req f id pkt = (f, [])
  dispatch code f id pkt =
      if not_closed f.state
      then dispatch_live code f id pkt
      else (f, send_terminate_ack pr f id ∷ [])

  unfoldable pub rearm : Code → OptionFsm P → OptionFsm P
  rearm code f = if not_closed f.state && is_response code then record f { attempts = 0 } else f

  unfoldable pub handle : OptionFsm P → List ℕ → OptionFsm P × List Packet
  handle f pkt =
      let code = code_from_u8 (get_or pkt 2 0) in
      let len = u16_be (get_or pkt 4 0) (get_or pkt 5 0) in
      if ltb (length pkt) 6
      then (f, [])
      else if ltb len 4
      then (f, [])
      else if ltb (length pkt) (len + 2)
      then (f, [])
      else dispatch code (rearm code f) (get_or pkt 3 0) (take (len + 2) pkt)
