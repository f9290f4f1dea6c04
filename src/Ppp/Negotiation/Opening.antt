-- ===== src/Ppp/Negotiation/Opening.antt =====
-- What the way from `ReqSent` to `Opened` needs of the packets received and sent.
use zeronat.Base.{
  ◌++◌, ℕ, ◌≡◌, ◌⊎◌, inl, inr, refl, Bool, true, false, ◌||◌, Option, none, some, List, [], ◌∷◌,
  ltb, Bool-cases, arith, drop, length, ◌==◌, get_or,
}
use zeronat.Ppp.Wire.{Code, configure_ack, Packet, Payload, ppp, code_u8, configure_req}
use zeronat.Ppp.Options.{Parsed, done, malformed, stuck}
use zeronat.Ppp.Negotiation.Cases.{handle_cases, packet_body, packet_code}
use zeronat.Ppp.Negotiation.Graph.{
  handle-Edge, rearm_state, dispatch-Edge, Edge, stay, ack_request, ack_and_open, refuse_acked,
  renegotiate_ack, renegotiate_refuse, acked, acked_and_open, ack_twice, ack_opened, nacked,
  nacked_opened, rejected, rejected_opened, terminate, terminate_received, terminate_sent,
  received_configure_req_state,
}
use zeronat.Ppp.Fsm.{
  dispatch, rearm, handle, dispatch_live, not_closed, Protocol, State, ack_received, ack_sent,
  opened, OptionFsm, Reply, is_ack, collect_reply, finish_reply, received_configure_req,
  after_reply, reply_with, on_configure_req, req_sent,
}

-- The peer has not answered our request; we have not acknowledged the peer's.
abbrev unanswered : State → Bool
unanswered ack_received = false
unanswered opened = false
unanswered _ = true

abbrev unacknowledged : State → Bool
unacknowledged ack_sent = false
unacknowledged opened = false
unacknowledged _ = true

abbrev pub is_ack_packet : Packet → Bool
is_ack_packet p = is_ack_payload p.payload
  where
    is_ack_payload : Payload → Bool
    is_ack_payload (Payload.raw bytes) = false
    is_ack_payload (ppp code id body) = is_ack code

abbrev pub sends_ack : List Packet → Bool
sends_ack [] = false
sends_ack (p ∷ ps) = is_ack_packet p || sends_ack ps

abbrev pub has_code : Code → List (List ℕ) → Bool
has_code c [] = false
has_code c (pkt ∷ pkts) = code_u8 (packet_code pkt) == code_u8 c || has_code c pkts

unanswered-Edge :
    {c : Code} {s t : State}
    → Edge c s t
    → unanswered s ≡ true
    → (unanswered t ≡ true) ⊎ (c ≡ configure_ack)
unanswered-Edge stay h = inl h
unanswered-Edge ack_request h = inl refl
unanswered-Edge refuse_acked h = inl refl
unanswered-Edge acked h = inr refl
unanswered-Edge acked_and_open h = inr refl
unanswered-Edge terminate_sent h = inl refl
unanswered-Edge ack_and_open h = cc
unanswered-Edge renegotiate_ack h = cc
unanswered-Edge renegotiate_refuse h = cc
unanswered-Edge ack_twice h = cc
unanswered-Edge ack_opened h = cc
unanswered-Edge nacked h = cc
unanswered-Edge nacked_opened h = cc
unanswered-Edge rejected h = cc
unanswered-Edge rejected_opened h = cc
unanswered-Edge terminate h = cc
unanswered-Edge terminate_received h = cc

unacknowledged-Edge :
    {c : Code} {s t : State}
    → Edge c s t
    → unacknowledged s ≡ true
    → (unacknowledged t ≡ true) ⊎ (c ≡ configure_req)
unacknowledged-Edge stay h = inl h
unacknowledged-Edge ack_request h = inr refl
unacknowledged-Edge refuse_acked h = cc
unacknowledged-Edge acked h = inl refl
unacknowledged-Edge acked_and_open h = cc
unacknowledged-Edge terminate_sent h = cc
unacknowledged-Edge ack_and_open h = inr refl
unacknowledged-Edge renegotiate_ack h = cc
unacknowledged-Edge renegotiate_refuse h = cc
unacknowledged-Edge ack_twice h = inl refl
unacknowledged-Edge ack_opened h = cc
unacknowledged-Edge nacked h = inl refl
unacknowledged-Edge nacked_opened h = cc
unacknowledged-Edge rejected h = inl refl
unacknowledged-Edge rejected_opened h = cc
unacknowledged-Edge terminate h = cc
unacknowledged-Edge terminate_received h = inl refl

module _ {P : Type 0} (pr : Protocol P) where
  unfoldable pub receive_all : OptionFsm P → List (List ℕ) → OptionFsm P × List Packet
  receive_all f [] = (f, [])
  receive_all f (pkt ∷ pkts) =
      let (f', sent) = handle pr f pkt in let (g, more) = receive_all f' pkts in (g, sent ++ more)

  -- A reply with code Ack is a Configure-Ack packet.
  abbrev pub IsAckReply : Option (Code × Packet) → Type 0
  IsAckReply none = Unit
  IsAckReply (some (code, resp)) = is_ack_packet resp ≡ is_ack code

  finish_reply-ack :
      (f : OptionFsm P) (id : ℕ) (out : Reply P × Parsed) → IsAckReply (finish_reply pr f id out).1
  unfolding finish_reply
  finish_reply-ack f id (r, done) = refl
  finish_reply-ack f id (r, malformed) = tt
  finish_reply-ack f id (r, stuck) = tt

  pub received_configure_req-ack :
      (f : OptionFsm P) (pkt : List ℕ) → IsAckReply (received_configure_req pr f pkt).1
  unfolding received_configure_req
  received_configure_req-ack f pkt = elim (Bool-cases (ltb (length pkt) 6)) [
    | inl short ↦ rw short tt
    | inr long ↦ rw long (finish_reply-ack f _ (collect_reply pr f (drop 6 pkt)))
  ]

  abbrev Acknowledges : OptionFsm P × List Packet → Type 0
  Acknowledges out = (unacknowledged out.0.state ≡ true) ⊎ (sends_ack out.1 ≡ true)

  after_reply-Acknowledges :
      (is_acked : Bool) (s : State) (f : OptionFsm P) (resp : Packet)
      → f.state ≡ s
      → is_ack_packet resp ≡ is_acked
      → unacknowledged s ≡ true
      → Acknowledges (after_reply pr is_acked s f resp)
  unfolding after_reply
  after_reply-Acknowledges is_acked s f resp e a h = ground arith

  reply_with-Acknowledges :
      (out : OptionFsm P × Option (Code × Packet))
      → IsAckReply out.1
      → unacknowledged out.0.state ≡ true
      → Acknowledges (reply_with pr out)
  unfolding reply_with
  reply_with-Acknowledges (f, none) a h = inl h
  reply_with-Acknowledges (f, some (code, resp)) a h =
      after_reply-Acknowledges (is_ack code) f.state f resp refl a h

  on_configure_req-Acknowledges :
      (f : OptionFsm P) (pkt : List ℕ)
      → unacknowledged f.state ≡ true
      → Acknowledges (on_configure_req pr f pkt)
  unfolding on_configure_req
  on_configure_req-Acknowledges f pkt h =
      reply_with-Acknowledges (received_configure_req pr f pkt) (received_configure_req-ack f pkt)
        (rw (received_configure_req_state pr f pkt) h)

  dispatch-Acknowledges :
      (code : Code) (f : OptionFsm P) (id : ℕ) (pkt : List ℕ)
      → unacknowledged f.state ≡ true
      → Acknowledges (dispatch pr code f id pkt)
  dispatch-Acknowledges configure_req f id pkt h = elim (Bool-cases (not_closed f.state)) [
    | inl live ↦ unfold dispatch dispatch_live in rw live (on_configure_req-Acknowledges f pkt h)
    | inr shut ↦ unfold dispatch in rw shut (inl h)
  ]
  dispatch-Acknowledges code f id pkt h =
      elim (unacknowledged-Edge (dispatch-Edge pr code f id pkt) h) [
        | inl still ↦ inl still
        | inr e ↦ cc
      ]

  handle-Acknowledges :
      (f : OptionFsm P) (pkt : List ℕ)
      → unacknowledged f.state ≡ true
      → Acknowledges (handle pr f pkt)
  handle-Acknowledges f pkt h =
      let g = rearm pr (packet_code pkt) f in
      handle_cases pr (λ out. Acknowledges out) f pkt (inl h)
        (dispatch-Acknowledges (packet_code pkt) g (get_or pkt 3 0) (packet_body pkt)
          (rw (rearm_state pr (packet_code pkt) f) h))

  answered :
      (f : OptionFsm P) (pkts : List (List ℕ))
      → unanswered f.state ≡ true
      → (receive_all f pkts).0.state ≡ opened
      → has_code configure_ack pkts ≡ true
  unfolding receive_all
  answered f [] h e = cc
  answered f (pkt ∷ pkts) h e = elim (unanswered-Edge (handle-Edge pr f pkt) h) [
    | inl still ↦ ground (arith, answered (handle pr f pkt).0 pkts still e)
    | inr c ↦ ground arith
  ]

  sends_ack-append : (ps qs : List Packet) → sends_ack (ps ++ qs) ≡ (sends_ack ps || sends_ack qs)
  sends_ack-append [] qs = refl
  sends_ack-append (p ∷ ps) qs = ground (arith, sends_ack-append ps qs)

  acknowledged :
      (f : OptionFsm P) (pkts : List (List ℕ))
      → unacknowledged f.state ≡ true
      → (receive_all f pkts).0.state ≡ opened
      → sends_ack (receive_all f pkts).1 ≡ true
  unfolding receive_all
  acknowledged f [] h e = cc
  acknowledged f (pkt ∷ pkts) h e =
      rw (sends_ack-append (handle pr f pkt).1 (receive_all (handle pr f pkt).0 pkts).1)
        (elim (handle-Acknowledges f pkt h) [
          | inl still ↦ ground (arith, acknowledged (handle pr f pkt).0 pkts still e)
          | inr sent ↦ rw sent refl
        ])

  -- Packets that take the automaton from `ReqSent` to `Opened` include a Configure-Ack of the
  -- peer's, and the automaton has answered one of them with a Configure-Ack of its own.
  pub opened_needs_both :
      (f : OptionFsm P) (pkts : List (List ℕ))
      → f.state ≡ req_sent
      → (receive_all f pkts).0.state ≡ opened
      → (has_code configure_ack pkts ≡ true) × (sends_ack (receive_all f pkts).1 ≡ true)
  opened_needs_both f pkts h e = (answered f pkts (rw h refl) e, acknowledged f pkts (rw h refl) e)
