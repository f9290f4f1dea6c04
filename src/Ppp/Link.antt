-- ===== src/Ppp/Link.antt =====
-- src/pppoe/ppp/mod.rs: the PPP driver, which runs LCP, the authentication and IPCP as one link.
pub mod Authentication
pub mod Sound
pub mod Establish
pub mod Invariant
use zeronat.Base.{
  ℕ, Bool, true, false, not, ◌&&◌, ◌||◌, Option, none, some, List, [], ◌∷◌, ◌++◌, map, leb, ltb,
  ◌==◌, min, if◌then◌else◌, length, get_or, u16_be, u32_be,
}
use zeronat.Ppp.Wire.{ProtocolType, proto_from_u16, Code, echo_reply, code_from_u8, Packet}
use zeronat.Ppp.Fsm.{
  OptionFsm, State, opened, is_closed, link_up, send_all, on_tick, open_fsm, send_echo_request,
  send_protocol_reject, new as new_fsm, close as close_fsm, handle as fsm_handle,
}
use zeronat.Ppp.Lcp.{Lcp, AuthType, no_auth, pap, chap_md5, lcp_protocol, new as new_lcp}
use zeronat.Ppp.Ipcp.{
  Ipv4cp, Ipv4Status, ipv4cp_protocol, new as new_ipv4cp, status as status_ipv4cp,
  set_request_dns as request_dns_ipv4cp,
}
use zeronat.Ppp.Pap.{
  Pap, new as new_pap, close as close_pap, open_pap, handle as pap_handle, State as PapState,
}
use zeronat.Ppp.Chap.{ChapState, idle, is_success, ChapResult, ok, handle as chap_handle}

pub data Phase : Type 0 where
  dead establish auth network open_phase : Phase

pub record Link : Type 0 where
  pub phase : Phase
  pub opening : Bool
  pub username : List ℕ
  pub password : List ℕ
  pub lcp : OptionFsm Lcp
  pub pap : Pap
  pub chap : ChapState
  pub ipv4cp : OptionFsm Ipv4cp
  pub echo_reply_seen : Bool

pub data OutFrame : Type 0 where
  packet : Packet → OutFrame
  raw : List ℕ → OutFrame

pub data RxOutcome : Type 0 where
  consumed : RxOutcome
  ip_packet : ℕ → ℕ → RxOutcome
  truncated : RxOutcome

unfoldable pub new : List ℕ → List ℕ → ℕ → ℕ → Link
unfolding new_fsm new_lcp new_ipv4cp new_pap
new username password mru_local magic_local = record {
  phase = dead;
  opening = false;
  username = username;
  password = password;
  lcp = new_fsm (new_lcp mru_local magic_local);
  pap = new_pap username password;
  chap = idle;
  ipv4cp = new_fsm new_ipv4cp;
  echo_reply_seen = false;
}

abbrev pub is_opened : State → Bool
is_opened opened = true
is_opened _ = false

abbrev pub pap_closed : PapState → Bool
pap_closed PapState.closed = true
pap_closed _ = false

abbrev pub pap_opened : PapState → Bool
pap_opened PapState.opened = true
pap_opened _ = false

-- `set_request_dns`
unfoldable pub set_request_dns : Link → Bool → Link
set_request_dns l on = record l {
  ipv4cp = record (l.ipv4cp) { proto = request_dns_ipv4cp l.ipv4cp.proto on };
}

unfoldable pub lcp_opened : Link → Bool
lcp_opened l = is_opened l.lcp.state

unfoldable pub lcp_closed : Link → Bool
lcp_closed l = is_closed l.lcp.state

-- `lcp_echo_request`
unfoldable pub lcp_echo_request : Link → ℕ → Option OutFrame
lcp_echo_request l id =
    if link_up l.lcp
    then some (packet (send_echo_request lcp_protocol l.lcp id l.lcp.proto.magic_local))
    else none

unfoldable pub take_echo_reply_seen : Link → Link × Bool
take_echo_reply_seen l = (record l { echo_reply_seen = false }, l.echo_reply_seen)

abbrev is_echo_reply : Code → Bool
is_echo_reply echo_reply = true
is_echo_reply _ = false

-- Two bytes of protocol and the eight of an echo body are needed; the magic stands at 6..10.
unfoldable pub is_peer_echo_reply : List ℕ → ℕ → Bool
is_peer_echo_reply pkt our_magic =
    let magic = u32_be (get_or pkt 6 0) (get_or pkt 7 0) (get_or pkt 8 0) (get_or pkt 9 0) in
    leb 10 (length pkt)
    && (is_echo_reply (code_from_u8 (get_or pkt 2 0)) && not (magic == our_magic))

unfoldable pub effective_mru : Link → ℕ
effective_mru l = min l.lcp.proto.mru_local l.lcp.proto.mru_remote

unfoldable pub ipv4_status : Link → Option Ipv4Status
ipv4_status l = if is_opened l.ipv4cp.state then some (status_ipv4cp l.ipv4cp.proto) else none

-- `open`: none is the `InvalidState` error.
open_from : Phase → Link → Option Link
open_from dead l = some (record l { phase = establish; opening = true })
open_from _ l = none

unfoldable pub open_link : Link → Option Link
unfolding open_from
open_link l = open_from l.phase l

-- `tick`
unfoldable pub tick : Link → Link × List OutFrame
tick l =
    let (lcp', sent) = on_tick lcp_protocol l.lcp in
    let (ipv4cp', more) = on_tick ipv4cp_protocol l.ipv4cp in
    (
      record l { lcp = lcp'; ipv4cp = ipv4cp' },
      map packet (send_all sent) ++ map packet (send_all more),
    )

unfoldable pub close_below : Link → Link
close_below l = record l {
  pap = if pap_closed l.pap.state then l.pap else close_pap l.pap;
  ipv4cp = if is_closed l.ipv4cp.state then l.ipv4cp else close_fsm l.ipv4cp;
}

unfoldable pub open_ipv4cp : Link → Link × List Packet
open_ipv4cp l =
    let (ipv4cp', request) = open_fsm ipv4cp_protocol l.ipv4cp in
    (record l { ipv4cp = ipv4cp'; phase = network }, request ∷ [])

unfoldable pub open_lcp : Link → Link × List Packet
open_lcp l =
    let (lcp', request) = open_fsm lcp_protocol l.lcp in
    (record l { lcp = lcp'; opening = false }, request ∷ [])

-- `poll` in `Establish`: start LCP if it is closed and has not failed.
unfoldable pub start_lcp : Link → Link × List Packet
start_lcp l = if is_closed l.lcp.state && not l.lcp.failed then open_lcp l else (l, [])

-- The authentication that the opened LCP asks for.
unfoldable pub authenticate : AuthType → Link → Link × List Packet
unfolding open_ipv4cp
authenticate no_auth l = open_ipv4cp l
authenticate chap_md5 l = (record l { phase = auth }, [])
authenticate pap l =
    let (pap', request) = open_pap l.pap in (record l { pap = pap'; phase = auth }, request ∷ [])

abbrev behind : List Packet → Link × List Packet → Link × List Packet
behind sent (l, more) = (l, sent ++ more)

unfoldable pub poll_establish : Link → Link × List Packet
poll_establish l =
    let (l', sent) = start_lcp l in
    if is_opened l'.lcp.state
    then behind sent (authenticate l'.lcp.proto.auth l')
    else (close_below l', sent)

unfoldable pub poll_auth : Link → Link × List Packet
poll_auth l = if is_success l.chap || pap_opened l.pap.state then open_ipv4cp l else (
  record l { ipv4cp = if is_closed l.ipv4cp.state then l.ipv4cp else close_fsm l.ipv4cp },
  [],
)

unfoldable pub poll_phase : Phase → Link → Link × List Packet
poll_phase dead l = (l, [])
poll_phase establish l = poll_establish l
poll_phase auth l = poll_auth l
poll_phase network l = (if is_opened l.ipv4cp.state then record l { phase = open_phase } else l, [])
poll_phase open_phase l = (l, [])

-- A negotiation that gave up, or a torn-down LCP, ends the session.
unfoldable pub end_if_down : Link → Link
end_if_down l =
    if (is_closed l.lcp.state && not l.opening) || l.ipv4cp.failed
    then record l { phase = dead }
    else l

unfoldable pub poll : Link → Link × List OutFrame
poll l = let (l', sent) = poll_phase l.phase l in (end_if_down l', map packet sent)

abbrev send_raw : ChapResult → List OutFrame
send_raw (ok (some bytes)) = raw bytes ∷ []
send_raw _ = []

module _ (md5 : List ℕ → List ℕ) where
  -- One inbound payload for the protocol that its first two bytes name.
  unfoldable pub deliver : ProtocolType → Link → List ℕ → Link × List OutFrame × RxOutcome
  deliver ProtocolType.lcp l pkt =
      let seen = l.echo_reply_seen || is_peer_echo_reply pkt l.lcp.proto.magic_local in
      let (lcp', sent) = fsm_handle lcp_protocol l.lcp pkt in
      (record l { lcp = lcp'; echo_reply_seen = seen }, map packet sent, consumed)
  deliver ProtocolType.pap l pkt =
      let (pap', sent) = pap_handle l.pap pkt in
      (record l { pap = pap' }, map packet sent, consumed)
  deliver ProtocolType.chap l pkt =
      let (chap', result) = chap_handle md5 l.chap pkt l.username l.password in
      (record l { chap = chap' }, send_raw result, consumed)
  deliver ProtocolType.ipv4 l pkt = (l, [], ip_packet 2 (length pkt))
  deliver ProtocolType.ipv4cp l pkt =
      let (ipv4cp', sent) = fsm_handle ipv4cp_protocol l.ipv4cp pkt in
      (record l { ipv4cp = ipv4cp' }, map packet sent, consumed)
  deliver ProtocolType.unknown l pkt =
      let (lcp', reject) = send_protocol_reject lcp_protocol l.lcp pkt in
      (record l { lcp = lcp' }, packet reject ∷ [], consumed)

  unfoldable pub received : Link → List ℕ → Link × List OutFrame × RxOutcome
  received l pkt =
      if ltb (length pkt) 2
      then (l, [], truncated)
      else deliver (proto_from_u16 (u16_be (get_or pkt 0 0) (get_or pkt 1 0))) l pkt
