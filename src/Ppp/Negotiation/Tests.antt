-- ===== src/Ppp/Negotiation/Tests.antt =====
-- Exchanges on which the theorems about the negotiation automaton apply, over the LCP side.
use zeronat.Base.{
  ℕ, List, [], ◌∷◌, refl, ◌≡◌, false, Bool, true, arith, replicate, leb, if◌then◌else◌,
}
use zeronat.Ppp.Negotiation.Moves.{handle-next_state}
use zeronat.Ppp.Negotiation.Table.{well_framed, next_state, answer}
use zeronat.Ppp.Fsm.{
  OptionFsm, open_fsm, handle, dispatch, rearm, collect_reply, closed, State, req_sent,
  dispatch_live, on_configure_req, max_failure, received_configure_req, reply_with, after_reply,
  on_configure_ack,
}
use zeronat.Ppp.Wire.{configure_ack, code_from_u8}
use zeronat.Ppp.Wire.Emit.{render_options}
use zeronat.Ppp.Lcp.{Lcp, lcp_protocol, no_auth, peer_option_received, peer_options_start}
use zeronat.Ppp.Negotiation.Cases.{packet_code}
use zeronat.Ppp.Negotiation.Invariant.{Inv, handle-Inv}
use zeronat.Ppp.Negotiation.Opening.{receive_all, has_code, sends_ack, opened_needs_both}
use zeronat.Ppp.Negotiation.Timer.{tick_all, open-gives_up}
use zeronat.Ppp.Negotiation.Answer.{
  collect_reply-worst, acked_verbatim, worst, with_code, answers, proto_after,
}
use zeronat.Ppp.Options.Scan.{scan}

abbrev lcp : Lcp
lcp = record {
  auth = no_auth;
  mru_local = 1492;
  mru_remote = 1500;
  mru_rej = false;
  magic_local = 7;
  magic_remote = 0;
  magic_rej = false;
}

abbrev automaton : State → Bool → OptionFsm Lcp
automaton s up = record {
  id = 1;
  state = s;
  up_seen = up;
  ticks_since_send = 0;
  attempts = 0;
  naks_sent = 0;
  failed = false;
  proto = lcp;
}

abbrev start : OptionFsm Lcp
start = automaton closed false

abbrev requested : OptionFsm Lcp
requested = automaton req_sent false

-- The peer's request for an MRU of 1492, and its answer to ours.
abbrev mru_bytes : List ℕ
mru_bytes = 1 ∷ 4 ∷ 5 ∷ 0xd4 ∷ []

abbrev mru_request : List ℕ
mru_request = 0xc0 ∷ 0x21 ∷ 1 ∷ 9 ∷ 0 ∷ 8 ∷ mru_bytes

abbrev peer_ack : List ℕ
peer_ack = 0xc0 ∷ 0x21 ∷ 2 ∷ 2 ∷ 0 ∷ 4 ∷ []

opened_needs_both_example :
    (has_code configure_ack (mru_request ∷ peer_ack ∷ []) ≡ true)
    × (sends_ack (receive_all lcp_protocol requested (mru_request ∷ peer_ack ∷ [])).1 ≡ true)
opened_needs_both_example =
    opened_needs_both lcp_protocol requested (mru_request ∷ peer_ack ∷ []) refl (
      unfold receive_all handle dispatch dispatch_live on_configure_req received_configure_req
        collect_reply reply_with after_reply on_configure_ack rearm code_from_u8
        peer_option_received peer_options_start in
      refl)

handle-next_state_example :
    let (f', sent) = handle lcp_protocol requested mru_request in
    (f'.state ≡ (
      if well_framed mru_request
      then next_state (packet_code mru_request) (answer sent) requested.state
      else requested.state))
    × (sent ≡ (if well_framed mru_request then sent else []))
handle-next_state_example = handle-next_state lcp_protocol requested mru_request

handle-Inv_example : Inv (handle lcp_protocol requested mru_request).0
handle-Inv_example = handle-Inv lcp_protocol requested mru_request (ground arith)

open-gives_up_example :
    ((tick_all lcp_protocol 30 (open_fsm lcp_protocol start).0).0.state ≡ closed)
    × ((tick_all lcp_protocol 30 (open_fsm lcp_protocol start).0).0.failed ≡ true)
    × ((tick_all lcp_protocol 30 (open_fsm lcp_protocol start).0).1
        ≡ replicate 9 (open_fsm lcp_protocol start).1)
open-gives_up_example = open-gives_up lcp_protocol start refl refl

collect_reply-worst_example :
    let first = lcp_protocol.peer_options_start lcp in
    let os = (scan mru_bytes).0 in
    let judged = answers lcp_protocol (leb max_failure 0) first os in
    let w = worst configure_ack judged in
    collect_reply lcp_protocol requested mru_bytes ≡ (
      record { proto = proto_after lcp_protocol first os; code = w; opts = with_code w judged },
      (scan mru_bytes).1,
    )
collect_reply-worst_example = collect_reply-worst lcp_protocol requested mru_bytes

acked_verbatim_example :
    render_options (collect_reply lcp_protocol requested mru_bytes).0.opts ≡ mru_bytes
acked_verbatim_example =
    acked_verbatim lcp_protocol requested mru_bytes (ground arith)
      (unfold collect_reply peer_option_received peer_options_start in refl)
      (unfold collect_reply peer_option_received peer_options_start in refl)
