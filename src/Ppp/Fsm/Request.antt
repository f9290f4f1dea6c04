-- ===== src/Ppp/Fsm/Request.antt =====
-- src/pppoe/ppp/option_fsm.rs: the option negotiation automaton of RFC 1661, over a `Protocol`.
-- A method that mutates returns the new automaton; what it hands to `tx` is a list of packets in
-- the order of the calls. Here: the reply to a Configure-Request.
use zeronat.Base.{
  ℕ, Bool, Option, none, some, List, [], ltb, leb, if◌then◌else◌, length, drop, get_or,
}
use zeronat.Ppp.Wire.{Code, configure_ack, options, ppp, Packet}
use zeronat.Ppp.Options.{Parsed, done, parse_options}
use zeronat.Ppp.Fsm.Defs.{
  Protocol, max_failure, OptionFsm, Reply, verdict_reply, add_verdict, count_naks,
}

module _ {P : Type 0} (pr : Protocol P) where
  open pr use {
    protocol, own_options, own_option_nacked, peer_options_start, peer_option_received,
    echo_reply_magic,
  }

  -- `received_configure_req`: the closure, the reply, and what a malformed packet leaves behind.
  unfoldable pub receive_option : Bool → Reply P → ℕ → List ℕ → Reply P
  unfolding verdict_reply add_verdict
  receive_option naks_exhausted r ocode odata =
      let (proto, verdict) = peer_option_received r.proto ocode odata in
      let (ret_code, body) = verdict_reply naks_exhausted verdict odata in
      add_verdict r proto ret_code (record { code = ocode; body = body })

  -- The whole option list of a request, from the options' start.
  unfoldable pub collect_reply : OptionFsm P → List ℕ → Reply P × Parsed
  unfolding receive_option parse_options
  collect_reply f opts_in =
      parse_options (receive_option (leb max_failure f.naks_sent))
        (record { proto = peer_options_start f.proto; code = configure_ack; opts = [] }) opts_in

  unfoldable pub finish_reply :
      OptionFsm P → ℕ → Reply P × Parsed → OptionFsm P × Option (Code × Packet)
  finish_reply f id (r, done) = (
    record f { proto = r.proto; naks_sent = count_naks r.code f.naks_sent },
    some (r.code, record { proto = protocol r.proto; payload = ppp r.code id (options r.opts) }),
  )
  finish_reply f id (r, _) = (record f { proto = r.proto }, none)

  -- `some` carries the packet with its code, which the caller reads back from the packet.
  unfoldable pub received_configure_req :
      OptionFsm P → List ℕ → OptionFsm P × Option (Code × Packet)
  unfolding finish_reply
  received_configure_req f pkt =
      if ltb (length pkt) 6
      then (f, none)
      else finish_reply f (get_or pkt 3 0) (collect_reply f (drop 6 pkt))
