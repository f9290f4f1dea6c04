-- ===== src/Ppp/Negotiation/Moves.antt =====
-- The automaton of pppoe/ppp/option_fsm.rs moves as its transition table says.
use mathlib.Core.Path.{subst}
use zeronat.Base.{
  ℕ, ◌≡◌, refl, sym, ap, ◌∙◌, Bool, true, false, Option, none, some, List, [], ◌∷◌, ltb, length,
  get_or, if◌then◌else◌, Bool-cases, inl, inr, arith, drop,
}
use zeronat.Ppp.Wire.{
  Code, configure_req, configure_ack, configure_nack, configure_rej, terminate_req, echo_req,
  discard_req, Packet,
}
use zeronat.Ppp.Options.{Parsed, done, malformed, stuck}
use zeronat.Ppp.Negotiation.Cases.{packet_code, packet_body}
use zeronat.Ppp.Negotiation.Graph.{received_configure_req_state, rearm_state}
use zeronat.Ppp.Negotiation.Table.{
  Answer, silence, positive, negative, answer, after_ack, after_refusal, after_terminate,
  next_state, well_framed,
}
use zeronat.Ppp.Negotiation.Opening.{is_ack_packet, IsAckReply, received_configure_req-ack}
use zeronat.Ppp.Fsm.{
  Protocol, State, closed, req_sent, ack_received, ack_sent, opened, OptionFsm, is_ack, not_closed,
  send_one, send_configure_request, received_configure_req, after_reply, reply_with,
  on_configure_req, on_configure_ack, after_nack, nacked_proto, on_configure_nack, on_terminate_req,
  dispatch_live, dispatch, rearm, handle, send_terminate_ack,
}

module _ {P : Type 0} (pr : Protocol P) where
  abbrev Moves : Code → State → OptionFsm P × List Packet → Type 0
  Moves code s out = out.0.state ≡ next_state code (answer out.1) s

  after_reply-Moves :
      (is_acked : Bool) (s : State) (f : OptionFsm P) (resp : Packet)
      → f.state ≡ s
      → is_ack_packet resp ≡ is_acked
      → Moves configure_req s (after_reply pr is_acked s f resp)
  unfolding after_reply
  after_reply-Moves true closed f resp e a = rw a e
  after_reply-Moves false closed f resp e a = rw a e
  after_reply-Moves true req_sent f resp e a = rw a refl
  after_reply-Moves true ack_received f resp e a = rw a refl
  after_reply-Moves true ack_sent f resp e a = rw a refl
  after_reply-Moves true opened f resp e a = rw a refl
  after_reply-Moves false req_sent f resp e a = rw a e
  after_reply-Moves false ack_received f resp e a = rw a e
  after_reply-Moves false ack_sent f resp e a = rw a refl
  after_reply-Moves false opened f resp e a = rw a refl

  reply_with-Moves :
      (s : State) (out : OptionFsm P × Option (Code × Packet))
      → out.0.state ≡ s
      → IsAckReply pr out.1
      → Moves configure_req s (reply_with pr out)
  unfolding reply_with
  reply_with-Moves s (f, none) e a = e
  reply_with-Moves s (f, some (code, resp)) e a =
      subst (λ t. Moves configure_req t (reply_with pr (f, some (code, resp)))) e
        (after_reply-Moves (is_ack code) f.state f resp refl a)

  on_configure_ack-Moves :
      (s : State) (f : OptionFsm P) → f.state ≡ s → (on_configure_ack pr s f).0.state ≡ after_ack s
  unfolding on_configure_ack
  on_configure_ack-Moves closed f e = e
  on_configure_ack-Moves req_sent f e = refl
  on_configure_ack-Moves ack_received f e = refl
  on_configure_ack-Moves ack_sent f e = refl
  on_configure_ack-Moves opened f e = refl

  after_nack-Moves :
      (f : OptionFsm P) (s : State) (out : P × Parsed)
      → f.state ≡ s
      → (after_nack pr f out).0.state ≡ after_refusal (answer (after_nack pr f out).1) s
  unfolding after_nack send_one send_configure_request
  after_nack-Moves f s (p, done) e = ground arith
  after_nack-Moves f s (p, malformed) e = e
  after_nack-Moves f s (p, stuck) e = e

  on_terminate_req-Moves :
      (s : State) (f : OptionFsm P) (id : ℕ)
      → f.state ≡ s
      → (on_terminate_req pr s f id).0.state ≡ after_terminate s
  unfolding on_terminate_req
  on_terminate_req-Moves closed f id e = e
  on_terminate_req-Moves req_sent f id e = refl
  on_terminate_req-Moves ack_received f id e = refl
  on_terminate_req-Moves ack_sent f id e = refl
  on_terminate_req-Moves opened f id e = refl

  received-Moves :
      (f : OptionFsm P) (pkt : List ℕ) → Moves configure_req f.state (on_configure_req pr f pkt)
  unfolding on_configure_req
  received-Moves f pkt =
      reply_with-Moves f.state (received_configure_req pr f pkt)
        (received_configure_req_state pr f pkt) (received_configure_req-ack pr f pkt)

  on_configure_nack-Moves :
      (is_rej : Bool) (f : OptionFsm P) (pkt : List ℕ)
      → (on_configure_nack pr is_rej f pkt).0.state
        ≡ after_refusal (answer (on_configure_nack pr is_rej f pkt).1) f.state
  unfolding on_configure_nack
  on_configure_nack-Moves is_rej f pkt = elim (Bool-cases (ltb (length pkt) 6)) [
    | inl short ↦ rw short refl
    | inr long ↦ rw long (after_nack-Moves f f.state (nacked_proto pr is_rej f (drop 6 pkt)) refl)
  ]

  dispatch_live-Moves :
      (code : Code) (f : OptionFsm P) (id : ℕ) (pkt : List ℕ)
      → Moves code f.state (dispatch_live pr code f id pkt)
  unfolding dispatch_live
  dispatch_live-Moves configure_req f id pkt = received-Moves f pkt
  dispatch_live-Moves configure_ack f id pkt = on_configure_ack-Moves f.state f refl
  dispatch_live-Moves configure_nack f id pkt = on_configure_nack-Moves false f pkt
  dispatch_live-Moves configure_rej f id pkt = on_configure_nack-Moves true f pkt
  dispatch_live-Moves terminate_req f id pkt = on_terminate_req-Moves f.state f id refl
  dispatch_live-Moves _ f id pkt = refl

  next-closed : (code : Code) (a : Answer) → next_state code a closed ≡ closed
  next-closed configure_req silence = refl
  next-closed configure_req positive = refl
  next-closed configure_req negative = refl
  next-closed configure_nack silence = refl
  next-closed configure_nack positive = refl
  next-closed configure_nack negative = refl
  next-closed configure_rej silence = refl
  next-closed configure_rej positive = refl
  next-closed configure_rej negative = refl
  next-closed _ a = refl

  shut_state : (s : State) → not_closed s ≡ false → s ≡ closed
  shut_state s h = ground arith

  shut-Moves :
      (code : Code) (f : OptionFsm P) (sent : List Packet)
      → not_closed f.state ≡ false
      → Moves code f.state (f, sent)
  shut-Moves code f sent shut =
      let e = shut_state f.state shut in
      e ∙ sym (next-closed code (answer sent)) ∙ sym (ap (next_state code (answer sent)) e)

  dispatch-Moves :
      (code : Code) (f : OptionFsm P) (id : ℕ) (pkt : List ℕ)
      → Moves code f.state (dispatch pr code f id pkt)
  unfolding dispatch
  dispatch-Moves echo_req f id pkt = refl
  dispatch-Moves discard_req f id pkt = refl
  dispatch-Moves code f id pkt = elim (Bool-cases (not_closed f.state)) [
    | inl live ↦ rw live (dispatch_live-Moves code f id pkt)
    | inr shut ↦ rw shut (shut-Moves code f (send_terminate_ack pr f id ∷ []) shut)
  ]

  handle_framed :
      (f : OptionFsm P) (pkt : List ℕ)
      → handle pr f pkt ≡ (
          if well_framed pkt
          then dispatch pr
              (packet_code pkt)
              (rearm pr (packet_code pkt) f)
              (get_or pkt 3 0)
              (packet_body pkt)
          else (f, []))
  unfolding handle
  handle_framed f pkt = ground arith

  -- Whatever the bytes of a packet are: one that is not well framed leaves the state as it is and is not
  -- answered, and one that is takes the state where the table says for its code and for what the
  -- automaton answers, nothing, a Configure-Ack first or something else first.
  pub handle-next_state :
      (f : OptionFsm P) (pkt : List ℕ)
      → let (f', sent) = handle pr f pkt in
        (f'.state ≡ (
          if well_framed pkt then next_state (packet_code pkt) (answer sent) f.state else f.state))
        × (sent ≡ (if well_framed pkt then sent else []))
  handle-next_state f pkt = elim (Bool-cases (well_framed pkt)) [
    | inl framed ↦
        rw (handle_framed f pkt, framed)
          (let out = λ (g : OptionFsm P).
              dispatch pr (packet_code pkt) g (get_or pkt 3 0) (packet_body pkt) in
            let g = rearm pr (packet_code pkt) f in
            (
              dispatch-Moves (packet_code pkt) g (get_or pkt 3 0) (packet_body pkt)
                  ∙ ap (next_state (packet_code pkt) (answer (out g).1))
                      (rearm_state pr (packet_code pkt) f),
              refl,
            ))
    | inr dropped ↦ rw (handle_framed f pkt, dropped) (refl, refl)
  ]
