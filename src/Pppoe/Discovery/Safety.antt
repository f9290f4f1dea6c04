-- ===== src/Pppoe/Discovery/Safety.antt =====
-- What a session of discovery rests on, over any sequence of frames and ticks.
use zeronat.Base.{ℕ, List, [], ◌∷◌, ◌≡◌, ◌≢◌, inr, some, true, Option}
use zeronat.Pppoe.Discovery.Machine.{
  Discovery, padr_sent, established, on_frame, Session, on_tick, mac_eq, host_uniq_matches,
  from_chosen,
}
use zeronat.Pppoe.Frame.{MacAddr}
use zeronat.Pppoe.Discovery.Packets.{DiscoveryPacket, parse_discovery_frame, code_pado, code_pads}

pub data Event : Type 0 where
  frame : List ℕ → Event
  tick : Event

unfoldable pub step : Discovery → Event → Discovery
step d (frame bytes) = (on_frame d bytes).0
step d tick = (on_tick d).0

unfoldable pub run : Discovery → List Event → Discovery
run d [] = d
run d (e ∷ es) = run (step d e) es

-- Every frame among the events has the property.
unfoldable pub Received : (List ℕ → Type 0) → Event → Type 0
Received P (frame bytes) = P bytes
Received P tick = Unit

-- A frame with the property that is a packet of this code from this concentrator, addressed to
-- the host and with the Host-Uniq of the host.
pub record Genuine (P : List ℕ → Type 0) (src : MacAddr) (uniq : Option (List ℕ)) (code : ℕ)
    (ac : MacAddr) (p : DiscoveryPacket) : Type 0 where
  pub bytes : List ℕ
  pub received : P bytes
  pub parsed : parse_discovery_frame bytes ≡ inr p
  pub of_code : p.code ≡ code
  pub for_us : mac_eq p.eth.dst src ≡ true
  pub from : p.eth.src ≡ ac
  pub matches : host_uniq_matches uniq p.host_uniq ≡ true

-- The chosen concentrator sent a PADO, and its cookie is kept.
pub record Offered (P : List ℕ → Type 0) (src : MacAddr) (uniq : Option (List ℕ))
    (ac_mac : Option MacAddr) (ac_cookie : Option (List ℕ)) : Type 0 where
  pub ac : MacAddr
  pub chosen : ac_mac ≡ some ac
  pub packet : DiscoveryPacket
  pub genuine : Genuine P src uniq code_pado ac packet
  pub cookie : ac_cookie ≡ packet.ac_cookie

-- The session is what a PADS says whose sender is the concentrator that sent the PADO.
pub record Confirmed (P : List ℕ → Type 0) (src : MacAddr) (uniq : Option (List ℕ))
    (ac_mac : Option MacAddr) (ac_cookie : Option (List ℕ)) (s : Session) : Type 0 where
  pub offered : Offered P src uniq ac_mac ac_cookie
  pub packet : DiscoveryPacket
  pub genuine : Genuine P src uniq code_pads s.ac_mac packet
  pub same_ac : from_chosen ac_mac s.ac_mac ≡ true
  pub assigned : packet.session_id ≡ s.session_id
  pub nonzero : s.session_id ≢ 0

unfoldable pub Justified : (List ℕ → Type 0) → Discovery → Type 0
Justified P d =
    (d.state ≡ padr_sent → Offered P d.src d.host_uniq d.ac_mac d.ac_cookie)
    × ((s : Session)
        → d.state ≡ established s
        → Confirmed P d.src d.host_uniq d.ac_mac d.ac_cookie s)
