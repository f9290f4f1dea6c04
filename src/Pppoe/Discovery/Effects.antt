-- ===== src/Pppoe/Discovery/Effects.antt =====
-- What a packet and a tick change in the state of discovery.
use zeronat.Base.{
  ℕ, List, [], ◌∷◌, ◌≡◌, ◌≢◌, inl, inr, some, true, arith, refl, ◌⊎◌, ◌∙◌, ◌+◌, ◌%◌, ◌^◌, ap,
}
use zeronat.Pppoe.Discovery.Machine.{
  Discovery, State, init, padi_sent, padr_sent, dead, established, on_frame, on_tick, mac_eq,
  host_uniq_matches, on_pado, on_pads, on_padt, from_chosen, tick_stage, tick_in, packet_in,
  on_packet, on_parsed,
}
use zeronat.Pppoe.Frame.{Error}
use zeronat.Pppoe.Discovery.Packets.{DiscoveryPacket, parse_discovery_frame, code_pado, code_pads}
use zeronat.Pppoe.Discovery.Safety.{run, step, Event, frame, tick}

-- What a PADO for this host is.
pub pado_effect :
    (d : Discovery) (p : DiscoveryPacket)
    → ((on_pado d p).0 ≡ d)
      ⊎ ((p.code ≡ code_pado)
          × (mac_eq p.eth.dst d.src ≡ true)
          × (host_uniq_matches d.host_uniq p.host_uniq ≡ true)
          × ((on_pado d p).0 ≡ record d {
            state = padr_sent;
            ac_mac = some p.eth.src;
            ac_cookie = p.ac_cookie;
            ticks_since_send = 0;
            attempts = 0;
          }))
unfolding on_pado
pado_effect d p = ground arith

pub pads_effect :
    (d : Discovery) (p : DiscoveryPacket)
    → ((on_pads d p).0 ≡ d)
      ⊎ ((p.code ≡ code_pads)
          × (mac_eq p.eth.dst d.src ≡ true)
          × (from_chosen d.ac_mac p.eth.src ≡ true)
          × (host_uniq_matches d.host_uniq p.host_uniq ≡ true)
          × (p.session_id ≢ 0)
          × ((on_pads d p).0 ≡ record d {
            state = established (record { ac_mac = p.eth.src; session_id = p.session_id });
          }))
unfolding on_pads
pads_effect d p = ground arith

pub padt_effect :
    (d : Discovery) (p : DiscoveryPacket)
    → ((on_padt d p).0 ≡ d) ⊎ ((on_padt d p).0 ≡ record d { state = dead })
unfolding on_padt
padt_effect d p = ground arith

-- What a tick may change: the state to dead, and the counters.
unfoldable pub TickEffect : Discovery → Discovery → Type 0
TickEffect d d' =
    (s : State) × (t : ℕ) × (n : ℕ) × ((s ≡ d.state) ⊎ (s ≡ dead))
    × (d' ≡ record d { state = s; ticks_since_send = t; attempts = n })

stage_effect :
    (d : Discovery) (bytes : List ℕ)
    → let ticks = (d.ticks_since_send + 1) % 2 ^ 32 in
      ((tick_stage d bytes).0 ≡ record d { ticks_since_send = ticks })
      ⊎ (((tick_stage d bytes).0 ≡ record d { state = dead; ticks_since_send = ticks })
          ⊎ ((tick_stage d bytes).0
              ≡ record d { attempts = (d.attempts + 1) % 2 ^ 32; ticks_since_send = 0 }))
unfolding tick_stage
stage_effect d bytes = ground arith

tick_stage_effect : (d : Discovery) (bytes : List ℕ) → TickEffect d (tick_stage d bytes).0
unfolding TickEffect
tick_stage_effect d bytes = elim (stage_effect d bytes) [
  | inl e ↦ (d.state, (d.ticks_since_send + 1) % 2 ^ 32, d.attempts, inl refl, e)
  | inr (inl e) ↦ (dead, (d.ticks_since_send + 1) % 2 ^ 32, d.attempts, inr refl, e)
  | inr (inr e) ↦ (d.state, 0, (d.attempts + 1) % 2 ^ 32, inl refl, e)
]

pub tick_in_effect : (s : State) (d : Discovery) → TickEffect d (tick_in s d).0
unfolding TickEffect
tick_in_effect padi_sent d = tick_stage_effect d _
tick_in_effect padr_sent d = tick_stage_effect d _
tick_in_effect init d = (d.state, d.ticks_since_send, d.attempts, inl refl, refl)
tick_in_effect dead d = (d.state, d.ticks_since_send, d.attempts, inl refl, refl)
tick_in_effect (established s) d = (d.state, d.ticks_since_send, d.attempts, inl refl, refl)

-- The host's address and Host-Uniq stay.
unfoldable pub Stays : Discovery → Discovery → Type 0
Stays d d' = (d'.src ≡ d.src) × (d'.host_uniq ≡ d.host_uniq)

packet_in-Stays : (s : State) (d : Discovery) (p : DiscoveryPacket) → Stays d (packet_in s d p).0
unfolding Stays on_pado on_pads
packet_in-Stays padi_sent d p = ground arith
packet_in-Stays padr_sent d p = ground arith
packet_in-Stays init d p = (refl, refl)
packet_in-Stays dead d p = (refl, refl)
packet_in-Stays (established s) d p = (refl, refl)

on_packet-Stays : (d : Discovery) (p : DiscoveryPacket) → Stays d (on_packet d p).0
unfolding Stays on_packet on_padt
on_packet-Stays d p =
    let rest : Stays d (packet_in d.state d p).0 = packet_in-Stays d.state d p in ground arith

on_parsed-Stays : (d : Discovery) (r : Error ⊎ DiscoveryPacket) → Stays d (on_parsed d r).0
unfolding Stays
on_parsed-Stays d (inl e) = (refl, refl)
on_parsed-Stays d (inr p) = on_packet-Stays d p

step-Stays : (d : Discovery) (e : Event) → Stays d (step d e)
unfolding Stays step on_frame on_tick TickEffect
step-Stays d (frame bytes) = on_parsed-Stays d (parse_discovery_frame bytes)
step-Stays d tick =
    let e = tick_in_effect d.state d in
    (ap (λ (x : Discovery). x.src) e.4, ap (λ (x : Discovery). x.host_uniq) e.4)

pub run-Stays : (es : List Event) (d : Discovery) → Stays d (run d es)
unfolding Stays run
run-Stays [] d = (refl, refl)
run-Stays (e ∷ es) d =
    let later = run-Stays es (step d e) in
    let now = step-Stays d e in (later.0 ∙ now.0, later.1 ∙ now.1)
