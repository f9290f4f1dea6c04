-- ===== src/Ppp/Fsm/Defs.antt =====
-- src/pppoe/ppp/option_fsm.rs: the option negotiation automaton of RFC 1661, over a `Protocol`.
-- A method that mutates returns the new automaton; what it hands to `tx` is a list of packets in
-- the order of the calls. Here: the types, the state changes without a packet, and the reply.
use zeronat.Base.{
  ℕ, ◌+◌, Bool, true, false, ◌&&◌, Option, none, some, List, [], ◌∷◌, ◌++◌, ltb, leb, ◌==◌, min,
  if◌then◌else◌, length, take, drop, u32_max, be32,
}
use zeronat.Ppp.Wire.{
  ProtocolType, Code, configure_ack, configure_nack, configure_rej, code_u8, OptionVal, Packet,
}

pub data Verdict : Type 0 where
  ack : Verdict
  nack : List ℕ → Verdict
  rej : Verdict

-- The trait. `own_options` takes the closure that it feeds; both implementations only read, so
-- here it is the list of the calls.
pub record Protocol (P : Type 0) : Type 0 where
  pub protocol : P → ProtocolType
  pub own_options : P → List OptionVal
  pub own_option_nacked : P → ℕ → List ℕ → Bool → P
  pub peer_options_start : P → P
  pub peer_option_received : P → ℕ → List ℕ → P × Verdict
  pub echo_reply_magic : P → Option ℕ

pub data State : Type 0 where
  closed req_sent ack_received ack_sent opened : State

abbrev pub restart_ticks : ℕ
restart_ticks = 3

abbrev pub max_configure : ℕ
max_configure = 10

abbrev pub max_failure : ℕ
max_failure = 5

pub record OptionFsm (P : Type 0) : Type 0 where
  pub id : ℕ  -- u8
  pub state : State
  pub up_seen : Bool
  pub ticks_since_send : ℕ  -- u32
  pub attempts : ℕ  -- u32
  pub naks_sent : ℕ  -- u32
  pub failed : Bool
  pub proto : P

-- `saturating_add(1)` on a u32
abbrev pub saturating_inc : ℕ → ℕ
saturating_inc n = min (n + 1) u32_max

abbrev pub is_closed : State → Bool
is_closed closed = true
is_closed _ = false

unfoldable pub new : {P : Type 0} → P → OptionFsm P
new proto = record {
  id = 1;
  state = closed;
  up_seen = false;
  ticks_since_send = 0;
  attempts = 0;
  naks_sent = 0;
  failed = false;
  proto = proto;
}

abbrev pub not_closed : State → Bool
not_closed closed = false
not_closed _ = true

unfoldable pub link_up : {P : Type 0} → OptionFsm P → Bool
link_up f = f.up_seen && not_closed f.state

unfoldable pub enter_closed : {P : Type 0} → OptionFsm P → OptionFsm P
enter_closed f = record f { state = closed; up_seen = false }

unfoldable pub close : {P : Type 0} → OptionFsm P → OptionFsm P
unfolding enter_closed
close f = enter_closed f

-- The reply that `received_configure_req` builds while it walks the options.
pub record Reply (P : Type 0) : Type 0 where
  pub proto : P
  pub code : Code
  pub opts : List OptionVal

-- The reply code and body for one verdict.
unfoldable pub verdict_reply : Bool → Verdict → List ℕ → Code × List ℕ
verdict_reply naks_exhausted ack body = (configure_ack, body)
verdict_reply naks_exhausted (nack suggested) body =
    if naks_exhausted then (configure_rej, body) else (configure_nack, suggested)
verdict_reply naks_exhausted rej body = (configure_rej, body)

-- A worse code discards the options collected so far; an option of the current code is kept.
unfoldable pub add_verdict : {P : Type 0} → Reply P → P → Code → OptionVal → Reply P
add_verdict r proto ret_code o =
    let worse = ltb (code_u8 r.code) (code_u8 ret_code) in
    let code = if worse then ret_code else r.code in
    let opts = if worse then [] else r.opts in
    record {
      proto = proto;
      code = code;
      opts = if code_u8 code == code_u8 ret_code then opts ++ (o ∷ []) else opts;
    }

-- `naks_sent` after a reply of the given code.
abbrev pub count_naks : Code → ℕ → ℕ
count_naks configure_ack naks = 0
count_naks configure_nack naks = saturating_inc naks
count_naks _ naks = naks

abbrev pub is_ack : Code → Bool
is_ack configure_ack = true
is_ack _ = false

-- A response to our Configure-Request re-arms the restart counter.
abbrev pub is_response : Code → Bool
is_response configure_ack = true
is_response configure_nack = true
is_response configure_rej = true
is_response _ = false

-- `slot.copy_from_slice` over the bytes 4..8 of an echo body, where they are present.
unfoldable pub stamp_magic : Option ℕ → List ℕ → List ℕ
stamp_magic none body = body
stamp_magic (some m) body =
    if leb 8 (length body) then take 4 body ++ be32 m ++ drop 8 body else body

abbrev pub set_head : ℕ → List ℕ → Option (List ℕ)
set_head v [] = none
set_head v (_ ∷ rest) = some (v ∷ rest)

abbrev pub send_all : Option Packet → List Packet
send_all none = []
send_all (some p) = p ∷ []

-- A timeout in `AckReceived` falls back to `ReqSent`.
abbrev pub back_to_req_sent : State → State
back_to_req_sent ack_received = req_sent
back_to_req_sent s = s
