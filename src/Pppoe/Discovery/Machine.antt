-- ===== src/Pppoe/Discovery/Machine.antt =====
-- src/pppoe/discovery.rs: the discovery driver, from the first PADI to a session.
use zeronat.Base.{
  ℕ, List, ◌+◌, ◌%◌, ◌^◌, ◌⊎◌, inl, inr, ◌==◌, if◌then◌else◌, none, some, Option, Bool, true, false,
  not, beq_bytes, ltb, leb,
}
use zeronat.Pppoe.Frame.{Error, MacAddr, octets}
use zeronat.Pppoe.Discovery.Packets.{
  DiscoveryPacket, parse_discovery_frame, build_padi, build_padr, broadcast, code_pado, code_pads,
  code_padt,
}

pub record Session : Type 0 where
  pub ac_mac : MacAddr
  pub session_id : ℕ

pub data State : Type 0 where
  init padi_sent padr_sent dead : State
  established : Session → State

pub data Action : Type 0 where
  send : List ℕ → Action
  idle failed : Action
  session : Session → Action

pub record Discovery : Type 0 where
  pub state : State
  pub src : MacAddr
  pub service_name : List ℕ
  pub host_uniq : Option (List ℕ)
  pub ac_mac : Option MacAddr
  pub ac_cookie : Option (List ℕ)
  pub ticks_since_send : ℕ
  pub attempts : ℕ
  pub retransmit_ticks : ℕ
  pub max_attempts : ℕ

unfoldable pub new_discovery : MacAddr → List ℕ → Option (List ℕ) → ℕ → ℕ → Discovery
new_discovery src service_name host_uniq retransmit_ticks max_attempts = record {
  state = init;
  src = src;
  service_name = service_name;
  host_uniq = host_uniq;
  ac_mac = none;
  ac_cookie = none;
  ticks_since_send = 0;
  attempts = 0;
  retransmit_ticks = retransmit_ticks;
  max_attempts = max_attempts;
}

-- `==` of two addresses.
unfoldable pub mac_eq : MacAddr → MacAddr → Bool
mac_eq a b = beq_bytes (octets a) (octets b)

unfoldable pub host_uniq_matches : Option (List ℕ) → Option (List ℕ) → Bool
host_uniq_matches none theirs = true
host_uniq_matches (some ours) none = false
host_uniq_matches (some ours) (some theirs) = beq_bytes theirs ours

-- `self.ac_mac` is an address and equals the given one.
unfoldable pub from_chosen : Option MacAddr → MacAddr → Bool
from_chosen none src = false
from_chosen (some ac) src = mac_eq src ac

abbrev start_in : State → Discovery → Discovery × Action
start_in init d = (
  record d { state = padi_sent; ticks_since_send = 0; attempts = 0 },
  send (build_padi d.src d.service_name d.host_uniq),
)
start_in padi_sent d = (d, idle)
start_in padr_sent d = (d, idle)
start_in dead d = (d, idle)
start_in (established s) d = (d, idle)

unfoldable pub start : Discovery → Discovery × Action
start d = start_in d.state d

-- A PADO that is for us is answered by a PADR to its sender.
unfoldable pub on_pado : Discovery → DiscoveryPacket → Discovery × Action
on_pado d packet =
    if not (packet.code == code_pado)
    then (d, idle)
    else if not (mac_eq packet.eth.dst d.src)
    then (d, idle)
    else if not (host_uniq_matches d.host_uniq packet.host_uniq)
    then (d, idle)
    else (
      record d {
        state = padr_sent;
        ac_mac = some packet.eth.src;
        ac_cookie = packet.ac_cookie;
        ticks_since_send = 0;
        attempts = 0;
      },
      send (build_padr d.src packet.eth.src d.service_name packet.ac_cookie d.host_uniq),
    )

-- A PADS from the chosen concentrator opens the session.
unfoldable pub on_pads : Discovery → DiscoveryPacket → Discovery × Action
on_pads d packet =
    let est : Session = record { ac_mac = packet.eth.src; session_id = packet.session_id } in
    if not (packet.code == code_pads)
    then (d, idle)
    else if not (mac_eq packet.eth.dst d.src)
    then (d, idle)
    else if not (from_chosen d.ac_mac packet.eth.src)
    then (d, idle)
    else if not (host_uniq_matches d.host_uniq packet.host_uniq)
    then (d, idle)
    else if packet.session_id == 0
    then (d, idle)
    else (record d { state = established est }, session est)

unfoldable pub on_padt : Discovery → DiscoveryPacket → Discovery × Action
on_padt d packet =
    if from_chosen d.ac_mac packet.eth.src then (record d { state = dead }, failed) else (d, idle)

abbrev pub packet_in : State → Discovery → DiscoveryPacket → Discovery × Action
packet_in padi_sent d packet = on_pado d packet
packet_in padr_sent d packet = on_pads d packet
packet_in init d packet = (d, idle)
packet_in dead d packet = (d, idle)
packet_in (established s) d packet = (d, idle)

unfoldable pub on_packet : Discovery → DiscoveryPacket → Discovery × Action
on_packet d packet =
    if packet.code == code_padt then on_padt d packet else packet_in d.state d packet

abbrev pub on_parsed : Discovery → Error ⊎ DiscoveryPacket → Discovery × Action
on_parsed d (inl e) = (d, idle)
on_parsed d (inr packet) = on_packet d packet

unfoldable pub on_frame : Discovery → List ℕ → Discovery × Action
on_frame d frame = on_parsed d (parse_discovery_frame frame)

-- `unwrap_or`
abbrev or_mac : Option MacAddr → MacAddr → MacAddr
or_mac none m = m
or_mac (some ac) m = ac

unfoldable pub padi_of : Discovery → List ℕ
padi_of d = build_padi d.src d.service_name d.host_uniq

unfoldable pub padr_of : Discovery → List ℕ
padr_of d = build_padr d.src (or_mac d.ac_mac broadcast) d.service_name d.ac_cookie d.host_uniq

-- The tick of a stage that resends the given frame.
unfoldable pub tick_stage : Discovery → List ℕ → Discovery × Action
tick_stage d frame =
    let ticks = (d.ticks_since_send + 1) % 2 ^ 32 in
    if ltb ticks d.retransmit_ticks
    then (record d { ticks_since_send = ticks }, idle)
    else if leb d.max_attempts ((d.attempts + 1) % 2 ^ 32)
    then (record d { state = dead; ticks_since_send = ticks }, failed)
    else (record d { attempts = (d.attempts + 1) % 2 ^ 32; ticks_since_send = 0 }, send frame)

abbrev pub tick_in : State → Discovery → Discovery × Action
tick_in padi_sent d = tick_stage d (padi_of d)
tick_in padr_sent d = tick_stage d (padr_of d)
tick_in init d = (d, idle)
tick_in dead d = (d, idle)
tick_in (established s) d = (d, idle)

unfoldable pub on_tick : Discovery → Discovery × Action
on_tick d = tick_in d.state d
