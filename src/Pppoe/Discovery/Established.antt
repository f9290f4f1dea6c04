-- ===== src/Pppoe/Discovery/Established.antt =====
-- A session of discovery rests on a PADO and a PADS that were received.
use mathlib.Core.Path.{subst}
use zeronat.Base.{
  ℕ, List, [], ◌∷◌, ◌≡◌, inl, inr, refl, All, Bool-cases, Option, ◌⊎◌, sym, ◌∙◌, ◌==◌,
}
use zeronat.Pppoe.Discovery.Machine.{
  Discovery, State, init, padi_sent, padr_sent, dead, established, on_frame, Session, on_tick,
  on_pado, on_pads, on_padt, packet_in, on_packet, start, on_parsed, new_discovery,
}
use zeronat.Pppoe.Frame.{MacAddr, Error}
use zeronat.Pppoe.Discovery.Packets.{DiscoveryPacket, parse_discovery_frame, code_padt}
use zeronat.Pppoe.Discovery.Safety.{run, step, Justified, Received, Event, Confirmed, frame, tick}
use zeronat.Pppoe.Discovery.Effects.{
  TickEffect, tick_in_effect, pado_effect, pads_effect, padt_effect, Stays, run-Stays,
}

same_state :
    (P : List ℕ → Type 0) (d : Discovery) (s : State) (t n : ℕ)
    → (s ≡ d.state) ⊎ (s ≡ dead)
    → Justified P d
    → Justified P (record d { state = s; ticks_since_send = t; attempts = n })
unfolding Justified
same_state P d s t n (inl e) j = (λ h. j.0 (sym e ∙ h), λ k h. j.1 k (sym e ∙ h))
same_state P d s t n (inr e) j = (λ h. absurd cc, λ k h. absurd cc)

on_tick-Justified :
    (P : List ℕ → Type 0) (d : Discovery) → Justified P d → Justified P (on_tick d).0
unfolding TickEffect on_tick
on_tick-Justified P d j =
    let e = tick_in_effect d.state d in
    subst (Justified P) (sym e.4) (same_state P d e.0 e.1 e.2 e.3 j)

on_pado-Justified :
    (P : List ℕ → Type 0) (d : Discovery) (bytes : List ℕ) (p : DiscoveryPacket)
    → P bytes
    → parse_discovery_frame bytes ≡ inr p
    → Justified P d
    → Justified P (on_pado d p).0
unfolding Justified
on_pado-Justified P d bytes p received parsed j = elim (pado_effect d p) [
  | inl e ↦ subst (Justified P) (sym e) j
  | inr (of_code, for_us, matches, e) ↦ subst (Justified P) (sym e) (
    (λ h. record {
      ac = p.eth.src;
      chosen = refl;
      packet = p;
      genuine = record {
        bytes = bytes;
        received = received;
        parsed = parsed;
        of_code = of_code;
        for_us = for_us;
        from = refl;
        matches = matches;
      };
      cookie = refl;
    }),
    λ s h. absurd cc,
  )
]

injected : {s k : Session} → established s ≡ established k → s ≡ k
injected h = cc

on_pads-Justified :
    (P : List ℕ → Type 0) (d : Discovery) (bytes : List ℕ) (p : DiscoveryPacket)
    → P bytes
    → parse_discovery_frame bytes ≡ inr p
    → d.state ≡ padr_sent
    → Justified P d
    → Justified P (on_pads d p).0
unfolding Justified
on_pads-Justified P d bytes p received parsed here j = elim (pads_effect d p) [
  | inl e ↦ subst (Justified P) (sym e) j
  | inr (of_code, for_us, chosen, matches, nonzero, e) ↦ subst (Justified P) (sym e) (
    (λ h. absurd cc),
    λ s h. subst (Confirmed P d.src d.host_uniq d.ac_mac d.ac_cookie) (injected h) (record {
      offered = j.0 here;
      packet = p;
      genuine = record {
        bytes = bytes;
        received = received;
        parsed = parsed;
        of_code = of_code;
        for_us = for_us;
        from = refl;
        matches = matches;
      };
      same_ac = chosen;
      assigned = refl;
      nonzero = nonzero;
    }),
  )
]

on_padt-Justified :
    (P : List ℕ → Type 0) (d : Discovery) (p : DiscoveryPacket)
    → Justified P d
    → Justified P (on_padt d p).0
unfolding Justified
on_padt-Justified P d p j = elim (padt_effect d p) [
  | inl e ↦ subst (Justified P) (sym e) j
  | inr e ↦ subst (Justified P) (sym e) ((λ h. absurd cc), λ s h. absurd cc)
]

packet_in-Justified :
    (P : List ℕ → Type 0) (s : State) (d : Discovery) (bytes : List ℕ) (p : DiscoveryPacket)
    → P bytes
    → parse_discovery_frame bytes ≡ inr p
    → d.state ≡ s
    → Justified P d
    → Justified P (packet_in s d p).0
packet_in-Justified P padi_sent d bytes p received parsed here j =
    on_pado-Justified P d bytes p received parsed j
packet_in-Justified P padr_sent d bytes p received parsed here j =
    on_pads-Justified P d bytes p received parsed here j
packet_in-Justified P init d bytes p received parsed here j = j
packet_in-Justified P dead d bytes p received parsed here j = j
packet_in-Justified P (established s) d bytes p received parsed here j = j

on_packet-Justified :
    (P : List ℕ → Type 0) (d : Discovery) (bytes : List ℕ) (p : DiscoveryPacket)
    → P bytes
    → parse_discovery_frame bytes ≡ inr p
    → Justified P d
    → Justified P (on_packet d p).0
unfolding on_packet
on_packet-Justified P d bytes p received parsed j = elim (Bool-cases (p.code == code_padt)) [
  | inl e ↦ rw e (on_padt-Justified P d p j)
  | inr e ↦ rw e (packet_in-Justified P d.state d bytes p received parsed refl j)
]

on_parsed-Justified :
    (P : List ℕ → Type 0) (d : Discovery) (bytes : List ℕ) (r : Error ⊎ DiscoveryPacket)
    → P bytes
    → parse_discovery_frame bytes ≡ r
    → Justified P d
    → Justified P (on_parsed d r).0
on_parsed-Justified P d bytes (inl x) received e j = j
on_parsed-Justified P d bytes (inr p) received e j = on_packet-Justified P d bytes p received e j

step-Justified :
    (P : List ℕ → Type 0) (d : Discovery) (e : Event)
    → Received P e
    → Justified P d
    → Justified P (step d e)
unfolding step Received on_frame
step-Justified P d (frame bytes) received j =
    on_parsed-Justified P d bytes (parse_discovery_frame bytes) received refl j
step-Justified P d tick received j = on_tick-Justified P d j

run-Justified :
    (P : List ℕ → Type 0) (es : List Event) (d : Discovery)
    → All (Received P) es
    → Justified P d
    → Justified P (run d es)
unfolding run
run-Justified P [] d received j = j
run-Justified P (e ∷ es) d received j =
    run-Justified P es (step d e) received.1 (step-Justified P d e received.0 j)

start-Justified :
    (P : List ℕ → Type 0) (src : MacAddr) (service : List ℕ) (uniq : Option (List ℕ))
    (retransmit attempts : ℕ)
    → Justified P (start (new_discovery src service uniq retransmit attempts)).0
unfolding Justified start new_discovery
start-Justified P src service uniq retransmit attempts = ((λ h. absurd cc), λ s h. absurd cc)

-- Whatever frames and ticks come after the start, and whatever property P all those frames have: if
-- discovery is established, a PADO and a PADS with P had been received, both addressed to this
-- host with its Host-Uniq, the PADS from the concentrator that sent the PADO, and the session is
-- the sender and the nonzero number of that PADS.
pub run-Confirmed :
    (P : List ℕ → Type 0) (src : MacAddr) (service : List ℕ) (uniq : Option (List ℕ))
    (retransmit attempts : ℕ) (es : List Event) (s : Session)
    → All (Received P) es
    → let d = run (start (new_discovery src service uniq retransmit attempts)).0 es in
      d.state ≡ established s → Confirmed P src uniq d.ac_mac d.ac_cookie s
unfolding Justified Stays start new_discovery
run-Confirmed P src service uniq retransmit attempts es s received h =
    let d = (start (new_discovery src service uniq retransmit attempts)).0 in
    let stays = run-Stays es d in
    subst (λ u. Confirmed P src u (run d es).ac_mac (run d es).ac_cookie s) stays.1
      (subst (λ m. Confirmed P m (run d es).host_uniq (run d es).ac_mac (run d es).ac_cookie s)
        stays.0
        ((run-Justified P es d received (start-Justified P src service uniq retransmit attempts)).1
          s h))
