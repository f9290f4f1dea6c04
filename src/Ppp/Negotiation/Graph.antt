-- ===== src/Ppp/Negotiation/Graph.antt =====
-- The transition diagram of the automaton: which packet code may move it from which state to
-- which, and what the way into `Opened` needs.
use mathlib.Core.Path.{subst}
use zeronat.Base.{
  sym, ◌≢◌, ℕ, ◌≡◌, ◌⊎◌, inl, inr, refl, Bool, true, false, Option, none, some, List, ltb,
  Bool-cases, arith, drop, length, get_or,
}
use zeronat.Ppp.Wire.{
  Code, configure_req, configure_ack, configure_nack, configure_rej, terminate_req, echo_req,
  discard_req, Packet,
}
use zeronat.Ppp.Options.{Parsed, done, malformed, stuck}
use zeronat.Ppp.Negotiation.Cases.{packet_code, packet_body, handle_cases}
use zeronat.Ppp.Fsm.{
  Protocol, State, closed, req_sent, ack_received, ack_sent, opened, OptionFsm, Reply, is_ack,
  not_closed, collect_reply, finish_reply, received_configure_req, after_reply, reply_with,
  on_configure_req, on_configure_ack, after_nack, nacked_proto, on_configure_nack, on_terminate_req,
  dispatch_live, dispatch, rearm, handle,
}

pub data Edge : Code → State → State → Type 0 where
  stay : {c : Code} {s : State} → Edge c s s
  ack_request : Edge configure_req req_sent ack_sent
  ack_and_open : Edge configure_req ack_received opened
  refuse_acked : Edge configure_req ack_sent req_sent
  renegotiate_ack : Edge configure_req opened ack_sent
  renegotiate_refuse : Edge configure_req opened req_sent
  acked : Edge configure_ack req_sent ack_received
  acked_and_open : Edge configure_ack ack_sent opened
  ack_twice : Edge configure_ack ack_received req_sent
  ack_opened : Edge configure_ack opened req_sent
  nacked : Edge configure_nack ack_received req_sent
  nacked_opened : Edge configure_nack opened req_sent
  rejected : Edge configure_rej ack_received req_sent
  rejected_opened : Edge configure_rej opened req_sent
  terminate : Edge terminate_req opened closed
  terminate_received : Edge terminate_req ack_received req_sent
  terminate_sent : Edge terminate_req ack_sent req_sent

abbrev NackMove : State → State → Type 0
NackMove s t = (t ≡ s) ⊎ ((t ≡ req_sent) × (not_closed s ≡ true) × (s ≢ ack_sent))

NackMove-nack : (s t : State) → NackMove s t → Edge configure_nack s t
NackMove-nack s t (inl e) = rw e stay
NackMove-nack closed t (inr (e, live, ne)) = cc
NackMove-nack req_sent t (inr (e, live, ne)) = rw e stay
NackMove-nack ack_received t (inr (e, live, ne)) = rw e nacked
NackMove-nack ack_sent t (inr (e, live, ne)) = absurd (ne refl)
NackMove-nack opened t (inr (e, live, ne)) = rw e nacked_opened

NackMove-rej : (s t : State) → NackMove s t → Edge configure_rej s t
NackMove-rej s t (inl e) = rw e stay
NackMove-rej closed t (inr (e, live, ne)) = cc
NackMove-rej req_sent t (inr (e, live, ne)) = rw e stay
NackMove-rej ack_received t (inr (e, live, ne)) = rw e rejected
NackMove-rej ack_sent t (inr (e, live, ne)) = absurd (ne refl)
NackMove-rej opened t (inr (e, live, ne)) = rw e rejected_opened

module _ {P : Type 0} (pr : Protocol P) where
  pub finish_reply_state :
      (f : OptionFsm P) (id : ℕ) (out : Reply P × Parsed)
      → (finish_reply pr f id out).0.state ≡ f.state
  unfolding finish_reply
  finish_reply_state f id (r, done) = refl
  finish_reply_state f id (r, malformed) = refl
  finish_reply_state f id (r, stuck) = refl

  pub received_configure_req_state :
      (f : OptionFsm P) (pkt : List ℕ) → (received_configure_req pr f pkt).0.state ≡ f.state
  unfolding received_configure_req
  received_configure_req_state f pkt = elim (Bool-cases (ltb (length pkt) 6)) [
    | inl short ↦ rw short refl
    | inr long ↦ rw long (finish_reply_state f _ (collect_reply pr f (drop 6 pkt)))
  ]

  after_reply-Edge :
      (is_acked : Bool) (s : State) (f : OptionFsm P) (resp : Packet)
      → f.state ≡ s
      → Edge configure_req s (after_reply pr is_acked s f resp).0.state
  unfolding after_reply
  after_reply-Edge true closed f resp e = rw e stay
  after_reply-Edge true req_sent f resp e = ack_request
  after_reply-Edge true ack_received f resp e = ack_and_open
  after_reply-Edge true ack_sent f resp e = stay
  after_reply-Edge true opened f resp e = renegotiate_ack
  after_reply-Edge false ack_sent f resp e = refuse_acked
  after_reply-Edge false opened f resp e = renegotiate_refuse
  after_reply-Edge false closed f resp e = rw e stay
  after_reply-Edge false req_sent f resp e = rw e stay
  after_reply-Edge false ack_received f resp e = rw e stay

  reply_with-Edge :
      (s : State) (out : OptionFsm P × Option (Code × Packet))
      → out.0.state ≡ s
      → Edge configure_req s (reply_with pr out).0.state
  unfolding reply_with
  reply_with-Edge s (f, none) e = rw e stay
  reply_with-Edge s (f, some (code, resp)) e =
      rw (sym e) (after_reply-Edge (is_ack code) f.state f resp refl)

  on_configure_req-Edge :
      (f : OptionFsm P) (pkt : List ℕ)
      → Edge configure_req f.state (on_configure_req pr f pkt).0.state
  unfolding on_configure_req
  on_configure_req-Edge f pkt =
      reply_with-Edge f.state (received_configure_req pr f pkt) (received_configure_req_state f pkt)

  on_configure_ack-Edge :
      (s : State) (f : OptionFsm P)
      → f.state ≡ s
      → Edge configure_ack s (on_configure_ack pr s f).0.state
  unfolding on_configure_ack
  on_configure_ack-Edge closed f e = rw e stay
  on_configure_ack-Edge req_sent f e = acked
  on_configure_ack-Edge ack_received f e = ack_twice
  on_configure_ack-Edge ack_sent f e = acked_and_open
  on_configure_ack-Edge opened f e = ack_opened

  -- After a Nak or Reject the state is `ReqSent`, unless it was `AckSent` or nothing is sent.
  after_nack_state :
      (f : OptionFsm P) (out : P × Parsed) → NackMove f.state (after_nack pr f out).0.state
  unfolding after_nack
  after_nack_state f (p, done) = ground arith
  after_nack_state f (p, malformed) = inl refl
  after_nack_state f (p, stuck) = inl refl

  on_configure_nack_state :
      (is_rej : Bool) (f : OptionFsm P) (pkt : List ℕ)
      → NackMove f.state (on_configure_nack pr is_rej f pkt).0.state
  unfolding on_configure_nack
  on_configure_nack_state is_rej f pkt = elim (Bool-cases (ltb (length pkt) 6)) [
    | inl short ↦ rw short (inl refl)
    | inr long ↦ rw long (after_nack_state f (nacked_proto pr is_rej f (drop 6 pkt)))
  ]

  on_terminate_req-Edge :
      (s : State) (f : OptionFsm P) (id : ℕ)
      → f.state ≡ s
      → Edge terminate_req s (on_terminate_req pr s f id).0.state
  unfolding on_terminate_req
  on_terminate_req-Edge closed f id e = rw e stay
  on_terminate_req-Edge req_sent f id e = stay
  on_terminate_req-Edge ack_received f id e = terminate_received
  on_terminate_req-Edge ack_sent f id e = terminate_sent
  on_terminate_req-Edge opened f id e = terminate

  dispatch_live-Edge :
      (code : Code) (f : OptionFsm P) (id : ℕ) (pkt : List ℕ)
      → Edge code f.state (dispatch_live pr code f id pkt).0.state
  unfolding dispatch_live
  dispatch_live-Edge configure_req f id pkt = on_configure_req-Edge f pkt
  dispatch_live-Edge configure_ack f id pkt = on_configure_ack-Edge f.state f refl
  dispatch_live-Edge configure_nack f id pkt =
      NackMove-nack _ _ (on_configure_nack_state false f pkt)
  dispatch_live-Edge configure_rej f id pkt = NackMove-rej _ _ (on_configure_nack_state true f pkt)
  dispatch_live-Edge terminate_req f id pkt = on_terminate_req-Edge f.state f id refl
  dispatch_live-Edge _ f id pkt = stay

  pub dispatch-Edge :
      (code : Code) (f : OptionFsm P) (id : ℕ) (pkt : List ℕ)
      → Edge code f.state (dispatch pr code f id pkt).0.state
  unfolding dispatch
  dispatch-Edge echo_req f id pkt = stay
  dispatch-Edge discard_req f id pkt = stay
  dispatch-Edge code f id pkt = elim (Bool-cases (not_closed f.state)) [
    | inl live ↦ rw live (dispatch_live-Edge code f id pkt)
    | inr shut ↦ rw shut stay
  ]

  pub rearm_state : (code : Code) (f : OptionFsm P) → (rearm pr code f).state ≡ f.state
  unfolding rearm
  rearm_state code f = ground arith

  -- Whatever the bytes of a received packet are, the state moves along an edge of the diagram
  -- that is labelled with the packet's code.
  pub handle-Edge :
      (f : OptionFsm P) (pkt : List ℕ) → Edge (packet_code pkt) f.state (handle pr f pkt).0.state
  handle-Edge f pkt =
      let g = rearm pr (packet_code pkt) f in
      handle_cases pr (λ out. Edge (packet_code pkt) f.state out.0.state) f pkt stay
        (subst
          (λ s.
            Edge (packet_code pkt) s
              (dispatch pr (packet_code pkt) g (get_or pkt 3 0) (packet_body pkt)).0.state)
          (rearm_state (packet_code pkt) f)
          (dispatch-Edge (packet_code pkt) g (get_or pkt 3 0) (packet_body pkt)))

Edge-closed : {c : Code} {s t : State} → Edge c s t → s ≡ closed → t ≡ closed
Edge-closed stay e = e
Edge-closed ack_request e = cc
Edge-closed ack_and_open e = cc
Edge-closed refuse_acked e = cc
Edge-closed renegotiate_ack e = cc
Edge-closed renegotiate_refuse e = cc
Edge-closed acked e = cc
Edge-closed acked_and_open e = cc
Edge-closed ack_twice e = cc
Edge-closed ack_opened e = cc
Edge-closed nacked e = cc
Edge-closed nacked_opened e = cc
Edge-closed rejected e = cc
Edge-closed rejected_opened e = cc
Edge-closed terminate e = cc
Edge-closed terminate_received e = cc
Edge-closed terminate_sent e = cc

-- No packet takes the automaton out of `Closed`.
pub handle_closed :
    {P : Type 0} (pr : Protocol P) (f : OptionFsm P) (pkt : List ℕ)
    → f.state ≡ closed
    → (handle pr f pkt).0.state ≡ closed
handle_closed pr f pkt e = Edge-closed (handle-Edge pr f pkt) e
