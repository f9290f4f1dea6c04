-- ===== src/Ppp/Negotiation/Invariant.antt =====
-- The invariant of the negotiation automaton, and that every operation keeps it.
use zeronat.Base.{
  ℕ, ◌≤◌, ◌<◌, ◌≡◌, ◌⊎◌, inl, inr, refl, Bool, true, false, Option, none, some, List, ltb, leb,
  arith, drop, length, Bool-cases,
}
use zeronat.Ppp.Wire.{
  Code, configure_ack, configure_nack, configure_rej, configure_req, terminate_req, echo_req,
  discard_req, Packet,
}
use zeronat.Ppp.Options.{Parsed, done, malformed, stuck}
use zeronat.Ppp.Options.Scan.{parse_options_inv}
use zeronat.Ppp.Negotiation.Cases.{packet_code, handle_cases}
use zeronat.Ppp.Fsm.{
  is_ack, Protocol, closed, ack_received, opened, max_configure, max_failure, OptionFsm, is_closed,
  new, close, Reply, receive_option, collect_reply, finish_reply, received_configure_req,
  after_reply, on_configure_req, on_configure_ack, on_configure_nack, on_terminate_req, after_nack,
  dispatch_live, dispatch, rearm, handle, not_closed, is_response, reply_with, open_fsm, on_tick,
}

pub record Inv {P : Type 0} (f : OptionFsm P) : Type 0 where
  pub up_live : f.up_seen ≡ true → is_closed f.state ≡ false
  pub opened_up : f.state ≡ opened → f.up_seen ≡ true
  pub failed_closed : f.failed ≡ true → f.state ≡ closed
  pub attempts_capped : f.attempts ≤ max_configure
  pub answered : (f.state ≡ opened) ⊎ (f.state ≡ ack_received) → f.attempts ≡ 0
  pub naks_capped : f.naks_sent ≤ max_failure
  pub id_byte : f.id < 256

pub new-Inv : {P : Type 0} (p : P) → Inv (new p)
unfolding new
new-Inv p = ground arith

pub close-Inv : {P : Type 0} (f : OptionFsm P) → Inv f → Inv (close f)
unfolding close
close-Inv f h = ground arith

abbrev is_nack : Code → Bool
is_nack configure_nack = true
is_nack _ = false

module _ {P : Type 0} (pr : Protocol P) where
  receive_option-nack :
      (r : Reply P) (code : ℕ) (body : List ℕ)
      → is_nack r.code ≡ false
      → is_nack (receive_option pr true r code body).code ≡ false
  unfolding receive_option
  receive_option-nack r code body h = ground arith

  collect_reply-nack :
      (f : OptionFsm P) (opts : List ℕ)
      → leb max_failure f.naks_sent ≡ true
      → is_nack (collect_reply pr f opts).0.code ≡ false
  unfolding collect_reply
  collect_reply-nack f opts e = rw e (
      parse_options_inv (λ r. is_nack r.code ≡ false) (receive_option pr true) receive_option-nack _
        opts refl)

  finish_reply-Inv :
      (f : OptionFsm P) (id : ℕ) (out : Reply P × Parsed)
      → Inv f
      → (leb max_failure f.naks_sent ≡ true → is_nack out.0.code ≡ false)
      → Inv (finish_reply pr f id out).0 × ((finish_reply pr f id out).0.state ≡ f.state)
  unfolding finish_reply
  finish_reply-Inv f id (r, done) h k = ground arith
  finish_reply-Inv f id (r, malformed) h k = ground arith
  finish_reply-Inv f id (r, stuck) h k = ground arith

  received_configure_req-Inv :
      (f : OptionFsm P) (pkt : List ℕ)
      → Inv f
      → Inv (received_configure_req pr f pkt).0
        × ((received_configure_req pr f pkt).0.state ≡ f.state)
  unfolding received_configure_req
  received_configure_req-Inv f pkt h = elim (Bool-cases (ltb (length pkt) 6)) [
    | inl short ↦ rw short (h, refl)
    | inr long ↦ rw long (
        finish_reply-Inv f _ (collect_reply pr f (drop 6 pkt)) h
          (collect_reply-nack f (drop 6 pkt)))
  ]

  after_reply-Inv :
      (acked : Bool) (f : OptionFsm P) (resp : Packet)
      → Inv f
      → Inv (after_reply pr acked f.state f resp).0
  unfolding after_reply
  after_reply-Inv acked f resp h = ground arith

  reply_with-Inv :
      (out : OptionFsm P × Option (Code × Packet)) → Inv out.0 → Inv (reply_with pr out).0
  unfolding reply_with
  reply_with-Inv (f, none) h = h
  reply_with-Inv (f, some (code, resp)) h = after_reply-Inv (is_ack code) f resp h

  on_configure_req-Inv :
      (f : OptionFsm P) (pkt : List ℕ) → Inv f → Inv (on_configure_req pr f pkt).0
  unfolding on_configure_req
  on_configure_req-Inv f pkt h = reply_with-Inv _ (received_configure_req-Inv f pkt h).0

  on_configure_ack-Inv :
      (f : OptionFsm P) → Inv f → f.attempts ≡ 0 → Inv (on_configure_ack pr f.state f).0
  unfolding on_configure_ack
  on_configure_ack-Inv f h e = ground arith

  after_nack-Inv :
      (f : OptionFsm P) (out : P × Parsed) → Inv f → f.attempts ≡ 0 → Inv (after_nack pr f out).0
  unfolding after_nack
  after_nack-Inv f (p, done) h e = ground arith
  after_nack-Inv f (p, malformed) h e = ground arith
  after_nack-Inv f (p, stuck) h e = ground arith

  on_configure_nack-Inv :
      (is_rej : Bool) (f : OptionFsm P) (pkt : List ℕ)
      → Inv f
      → f.attempts ≡ 0
      → Inv (on_configure_nack pr is_rej f pkt).0
  unfolding on_configure_nack
  on_configure_nack-Inv is_rej f pkt h e = elim (Bool-cases (ltb (length pkt) 6)) [
    | inl short ↦ rw short h
    | inr long ↦ rw long (after_nack-Inv f _ h e)
  ]

  on_terminate_req-Inv :
      (f : OptionFsm P) (id : ℕ) → Inv f → Inv (on_terminate_req pr f.state f id).0
  unfolding on_terminate_req
  on_terminate_req-Inv f id h = ground arith

  rearm-Inv : (code : Code) (f : OptionFsm P) → Inv f → Inv (rearm pr code f)
  unfolding rearm
  rearm-Inv code f h = ground arith

  rearm_answered :
      (code : Code) (f : OptionFsm P)
      → not_closed (rearm pr code f).state ≡ true
      → is_response code ≡ true
      → (rearm pr code f).attempts ≡ 0
  unfolding rearm
  rearm_answered code f h k = ground arith

  -- A response that reaches the live dispatch has re-armed the restart counter.
  dispatch_live-Inv :
      (code : Code) (f : OptionFsm P) (id : ℕ) (pkt : List ℕ)
      → Inv f
      → (is_response code ≡ true → f.attempts ≡ 0)
      → Inv (dispatch_live pr code f id pkt).0
  unfolding dispatch_live
  dispatch_live-Inv configure_req f id pkt h e = on_configure_req-Inv f pkt h
  dispatch_live-Inv configure_ack f id pkt h e = on_configure_ack-Inv f h (e refl)
  dispatch_live-Inv configure_nack f id pkt h e = on_configure_nack-Inv false f pkt h (e refl)
  dispatch_live-Inv configure_rej f id pkt h e = on_configure_nack-Inv true f pkt h (e refl)
  dispatch_live-Inv terminate_req f id pkt h e = on_terminate_req-Inv f id h
  dispatch_live-Inv _ f id pkt h e = h

  dispatch-Inv :
      (code : Code) (f : OptionFsm P) (id : ℕ) (pkt : List ℕ)
      → Inv f
      → (not_closed f.state ≡ true → is_response code ≡ true → f.attempts ≡ 0)
      → Inv (dispatch pr code f id pkt).0
  unfolding dispatch
  dispatch-Inv echo_req f id pkt h e = h
  dispatch-Inv discard_req f id pkt h e = h
  dispatch-Inv code f id pkt h e = elim (Bool-cases (not_closed f.state)) [
    | inl live ↦ rw live (dispatch_live-Inv code f id pkt h (e live))
    | inr shut ↦ rw shut h
  ]

  -- Every received packet, well formed or not, keeps the invariant.
  pub handle-Inv : (f : OptionFsm P) (pkt : List ℕ) → Inv f → Inv (handle pr f pkt).0
  handle-Inv f pkt h =
      let g = rearm pr (packet_code pkt) f in
      handle_cases pr (λ out. Inv out.0) f pkt h
        (dispatch-Inv (packet_code pkt) g _ _ (rearm-Inv (packet_code pkt) f h)
          (rearm_answered (packet_code pkt) f))

  pub open_fsm-Inv : (f : OptionFsm P) → Inv f → f.state ≡ closed → Inv (open_fsm pr f).0
  unfolding open_fsm
  open_fsm-Inv f h e = ground arith

  -- A tick of the restart timer keeps the invariant.
  pub on_tick-Inv : (f : OptionFsm P) → Inv f → Inv (on_tick pr f).0
  unfolding on_tick
  on_tick-Inv f h = ground arith
