-- ===== src/Ppp/Negotiation/Data.antt =====
-- What the methods of a protocol keep of its data, the automaton keeps over every packet.
use zeronat.Base.{
  ℕ, ◌≡◌, refl, inl, inr, Bool, true, false, Option, none, some, List, [], ◌∷◌, ltb, Bool-cases,
  drop, length, get_or,
}
use zeronat.Ppp.Wire.{
  Code, Packet, configure_req, configure_ack, configure_nack, configure_rej, terminate_req,
  echo_req, discard_req,
}
use zeronat.Ppp.Options.{Parsed, done, malformed, stuck}
use zeronat.Ppp.Options.Scan.{parse_options_inv}
use zeronat.Ppp.Negotiation.Cases.{packet_code, packet_body, handle_cases}
use zeronat.Ppp.Negotiation.Opening.{receive_all}
use zeronat.Ppp.Fsm.{
  Protocol, State, OptionFsm, Reply, receive_option, collect_reply, finish_reply,
  received_configure_req, after_reply, reply_with, on_configure_req, on_configure_ack, after_nack,
  nacked_proto, on_configure_nack, on_terminate_req, dispatch_live, dispatch, rearm, handle, is_ack,
  not_closed, max_failure,
}
use zeronat.Base.{leb, arith}

module _ {κ} {P : Type 0} (pr : Protocol P) (Keeps : P → Type κ)
    (keep_start : (p : P) → Keeps p → Keeps (pr.peer_options_start p))
    (keep_peer : (p : P) (code : ℕ) (body : List ℕ)
      → Keeps p
      → Keeps (pr.peer_option_received p code body).0)
    (keep_own : (p : P) (code : ℕ) (body : List ℕ) (is_rej : Bool)
      → Keeps p
      → Keeps (pr.own_option_nacked p code body is_rej)) where
  collect_reply-keeps :
      (f : OptionFsm P) (opts : List ℕ) → Keeps f.proto → Keeps (collect_reply pr f opts).0.proto
  unfolding collect_reply
  collect_reply-keeps f opts h =
      parse_options_inv (λ r. Keeps r.proto) (receive_option pr (leb max_failure f.naks_sent))
        (λ r code body k. keep_peer r.proto code body k) _ opts (keep_start f.proto h)

  nacked_proto-keeps :
      (is_rej : Bool) (f : OptionFsm P) (opts : List ℕ)
      → Keeps f.proto
      → Keeps (nacked_proto pr is_rej f opts).0
  unfolding nacked_proto
  nacked_proto-keeps is_rej f opts h =
      parse_options_inv Keeps (λ p code body. pr.own_option_nacked p code body is_rej)
        (λ p code body k. keep_own p code body is_rej k) f.proto opts h

  finish_reply-keeps :
      (f : OptionFsm P) (id : ℕ) (out : Reply P × Parsed)
      → Keeps out.0.proto
      → Keeps (finish_reply pr f id out).0.proto
  unfolding finish_reply
  finish_reply-keeps f id (r, done) h = h
  finish_reply-keeps f id (r, malformed) h = h
  finish_reply-keeps f id (r, stuck) h = h

  received_configure_req-keeps :
      (f : OptionFsm P) (pkt : List ℕ)
      → Keeps f.proto
      → Keeps (received_configure_req pr f pkt).0.proto
  unfolding received_configure_req
  received_configure_req-keeps f pkt h = elim (Bool-cases (ltb (length pkt) 6)) [
    | inl short ↦ rw short h
    | inr long ↦ rw long (
        finish_reply-keeps f _ (collect_reply pr f (drop 6 pkt))
          (collect_reply-keeps f (drop 6 pkt) h))
  ]

  after_reply_proto :
      (acked : Bool) (s : State) (f : OptionFsm P) (resp : Packet)
      → (after_reply pr acked s f resp).0.proto ≡ f.proto
  unfolding after_reply
  after_reply_proto acked s f resp = ground arith

  on_configure_req-keeps :
      (f : OptionFsm P) (pkt : List ℕ) → Keeps f.proto → Keeps (on_configure_req pr f pkt).0.proto
  unfolding on_configure_req
  on_configure_req-keeps f pkt h =
      replied (received_configure_req pr f pkt) (received_configure_req-keeps f pkt h)
    where
      replied :
          (out : OptionFsm P × Option (Code × Packet))
          → Keeps out.0.proto
          → Keeps (reply_with pr out).0.proto
      replied (g, none) k = unfold reply_with in k
      replied (g, some (code, resp)) k =
          unfold reply_with in rw (after_reply_proto (is_ack code) g.state g resp) k

  on_configure_ack_proto :
      (s : State) (f : OptionFsm P) → (on_configure_ack pr s f).0.proto ≡ f.proto
  unfolding on_configure_ack
  on_configure_ack_proto s f = ground arith

  after_nack_proto : (f : OptionFsm P) (out : P × Parsed) → (after_nack pr f out).0.proto ≡ out.0
  unfolding after_nack
  after_nack_proto f (p, done) = ground arith
  after_nack_proto f (p, malformed) = refl
  after_nack_proto f (p, stuck) = refl

  on_configure_nack-keeps :
      (is_rej : Bool) (f : OptionFsm P) (pkt : List ℕ)
      → Keeps f.proto
      → Keeps (on_configure_nack pr is_rej f pkt).0.proto
  unfolding on_configure_nack
  on_configure_nack-keeps is_rej f pkt h = elim (Bool-cases (ltb (length pkt) 6)) [
    | inl short ↦ rw short h
    | inr long ↦ rw long (
        rw (after_nack_proto f (nacked_proto pr is_rej f (drop 6 pkt)))
          (nacked_proto-keeps is_rej f (drop 6 pkt) h))
  ]

  on_terminate_req_proto :
      (s : State) (f : OptionFsm P) (id : ℕ) → (on_terminate_req pr s f id).0.proto ≡ f.proto
  unfolding on_terminate_req
  on_terminate_req_proto s f id = ground arith

  dispatch_live-keeps :
      (code : Code) (f : OptionFsm P) (id : ℕ) (pkt : List ℕ)
      → Keeps f.proto
      → Keeps (dispatch_live pr code f id pkt).0.proto
  unfolding dispatch_live
  dispatch_live-keeps configure_req f id pkt h = on_configure_req-keeps f pkt h
  dispatch_live-keeps configure_ack f id pkt h = rw (on_configure_ack_proto f.state f) h
  dispatch_live-keeps configure_nack f id pkt h = on_configure_nack-keeps false f pkt h
  dispatch_live-keeps configure_rej f id pkt h = on_configure_nack-keeps true f pkt h
  dispatch_live-keeps terminate_req f id pkt h = rw (on_terminate_req_proto f.state f id) h
  dispatch_live-keeps _ f id pkt h = h

  dispatch-keeps :
      (code : Code) (f : OptionFsm P) (id : ℕ) (pkt : List ℕ)
      → Keeps f.proto
      → Keeps (dispatch pr code f id pkt).0.proto
  unfolding dispatch
  dispatch-keeps echo_req f id pkt h = h
  dispatch-keeps discard_req f id pkt h = h
  dispatch-keeps code f id pkt h = elim (Bool-cases (not_closed f.state)) [
    | inl live ↦ rw live (dispatch_live-keeps code f id pkt h)
    | inr shut ↦ rw shut h
  ]

  rearm_proto : (code : Code) (f : OptionFsm P) → (rearm pr code f).proto ≡ f.proto
  unfolding rearm
  rearm_proto code f = ground arith

  pub handle-keeps :
      (f : OptionFsm P) (pkt : List ℕ) → Keeps f.proto → Keeps (handle pr f pkt).0.proto
  handle-keeps f pkt h =
      handle_cases pr (λ out. Keeps out.0.proto) f pkt h
        (dispatch-keeps (packet_code pkt) (rearm pr (packet_code pkt) f) (get_or pkt 3 0)
          (packet_body pkt) (rw (rearm_proto (packet_code pkt) f) h))

  -- Over any packets, the protocol data is changed by the protocol's methods alone: what they
  -- keep is kept.
  pub receive_all-keeps :
      (f : OptionFsm P) (pkts : List (List ℕ))
      → Keeps f.proto
      → Keeps (receive_all pr f pkts).0.proto
  unfolding receive_all
  receive_all-keeps f [] h = h
  receive_all-keeps f (pkt ∷ pkts) h =
      receive_all-keeps (handle pr f pkt).0 pkts (handle-keeps f pkt h)
