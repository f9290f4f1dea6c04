-- ===== src/Ppp/Fsm/Send.antt =====
-- src/pppoe/ppp/option_fsm.rs: the option negotiation automaton of RFC 1661, over a `Protocol`.
-- A method that mutates returns the new automaton; what it hands to `tx` is a list of packets in
-- the order of the calls. Here: what the automaton sends by itself, and its timer.
use zeronat.Base.{
  ℕ, ◌+◌, ◌%◌, true, false, Option, none, some, List, [], ltb, leb, if◌then◌else◌, be32,
}
use zeronat.Ppp.Wire.{
  configure_req, terminate_ack, protocol_rej, echo_req, PppPayload, owned, options, ppp, Packet,
}
use zeronat.Ppp.Fsm.Defs.{
  Protocol, State, closed, req_sent, ack_received, ack_sent, opened, restart_ticks, max_configure,
  OptionFsm, saturating_inc, enter_closed, not_closed, back_to_req_sent,
}

module _ {P : Type 0} (pr : Protocol P) where
  open pr use {
    protocol, own_options, own_option_nacked, peer_options_start, peer_option_received,
    echo_reply_magic,
  }

  -- `configure_request`
  unfoldable pub configure_request : OptionFsm P → ℕ → OptionFsm P × Packet
  configure_request f id = (
    record f { ticks_since_send = 0; attempts = saturating_inc f.attempts },
    record {
      proto = protocol f.proto;
      payload = ppp configure_req id (options (own_options f.proto));
    },
  )

  abbrev pub with_next_id : OptionFsm P → OptionFsm P
  with_next_id f = record f { id = (f.id + 1) % 256 }

  unfoldable pub send_configure_request : OptionFsm P → OptionFsm P × Packet
  unfolding configure_request
  send_configure_request f = configure_request (with_next_id f) ((f.id + 1) % 256)

  unfoldable pub send_terminate_ack : OptionFsm P → ℕ → Packet
  send_terminate_ack f id = record {
    proto = protocol f.proto;
    payload = ppp terminate_ack id (PppPayload.raw []);
  }

  unfoldable pub open_fsm : OptionFsm P → OptionFsm P × Packet
  unfolding send_configure_request
  open_fsm f =
      if not_closed f.state
      then send_configure_request f
      else send_configure_request
          (record f { failed = false; attempts = 0; naks_sent = 0; state = req_sent })

  -- The timer has run out: give up, stop retransmitting, or send the request again under its id.
  unfoldable pub on_timeout : OptionFsm P → OptionFsm P × Option Packet
  unfolding enter_closed configure_request
  on_timeout f =
      if leb max_configure f.attempts
      then (if f.up_seen then f else record (enter_closed f) { failed = true }, none)
      else let (f', p) = configure_request (record f { state = back_to_req_sent f.state }) f.id in
        (f', some p)

  unfoldable pub tick_running : OptionFsm P → OptionFsm P × Option Packet
  unfolding on_timeout
  tick_running f =
      let f' = record f { ticks_since_send = saturating_inc f.ticks_since_send } in
      if ltb f'.ticks_since_send restart_ticks then (f', none) else on_timeout f'

  unfoldable pub on_tick : OptionFsm P → OptionFsm P × Option Packet
  unfolding tick_running
  on_tick f = tick_in f.state
    where
      tick_in : State → OptionFsm P × Option Packet
      tick_in closed = (f, none)
      tick_in opened = (f, none)
      tick_in req_sent = tick_running f
      tick_in ack_received = tick_running f
      tick_in ack_sent = tick_running f

  -- Packets that the engine asks for.
  unfoldable pub send_echo_request : OptionFsm P → ℕ → ℕ → Packet
  send_echo_request f id magic = record {
    proto = protocol f.proto;
    payload = ppp echo_req id (owned (be32 magic));
  }

  unfoldable pub send_protocol_reject : OptionFsm P → List ℕ → OptionFsm P × Packet
  send_protocol_reject f pkt = (
    with_next_id f,
    record {
      proto = protocol f.proto;
      payload = ppp protocol_rej ((f.id + 1) % 256) (PppPayload.raw pkt);
    },
  )
