-- ===== src/Ppp/Link/Invariant.antt =====
-- Every operation of the link keeps its invariant.
use zeronat.Ppp.Chap.{is_success}
use mathlib.Core.Path.{subst}
use mathlib.Core.Option.{some-injective}
use zeronat.Base.{
  ◌&&◌, ◌||◌, not, ℕ, ◌≡◌, inl, inr, refl, some, List, arith, ltb, length, Bool-cases,
}
use zeronat.Ppp.Wire.{ProtocolType}
use zeronat.Ppp.Fsm.{is_closed, on_tick, handle, send_protocol_reject}
use zeronat.Ppp.Lcp.{lcp_protocol, new as new_lcp}
use zeronat.Ppp.Ipcp.{ipv4cp_protocol, new as new_ipv4cp}
use zeronat.Ppp.Negotiation.Invariant.{new-Inv, handle-Inv, on_tick-Inv}
use zeronat.Ppp.Negotiation.Graph.{handle_closed}
use zeronat.Ppp.Link.{
  open_from, pap_opened, Link, Phase, dead, establish, auth, network, open_phase, new, open_link,
  tick, poll, poll_phase, poll_auth, end_if_down, deliver, received, is_opened,
}
use zeronat.Ppp.Link.Sound.{
  LinkInv, closed_of, on_tick_closed, reject-Inv, lcp_changed, ipv4cp_changed,
}
use zeronat.Ppp.Link.Establish.{
  open_ipv4cp-LinkInv, closed_ipv4cp, closed_ipv4cp-Inv, poll_establish-LinkInv,
}

pub new-LinkInv : (user pass : List ℕ) (mru magic : ℕ) → LinkInv (new user pass mru magic)
unfolding new
new-LinkInv user pass mru magic = record {
  lcp_sound = new-Inv (new_lcp mru magic);
  ipv4cp_sound = new-Inv new_ipv4cp;
  auth_below = λ e. cc;
  establish_below = λ e. inl refl;
}

-- A tick of both restart timers keeps the invariant of the link.
pub tick-LinkInv : (l : Link) → LinkInv l → LinkInv (tick l).0
unfolding tick
tick-LinkInv l h =
    let f = on_tick lcp_protocol l.lcp in
    ipv4cp_changed (record l { lcp = f.0 }) (on_tick ipv4cp_protocol l.ipv4cp).0
      (lcp_changed l f.0 l.echo_reply_seen h (on_tick-Inv lcp_protocol l.lcp h.lcp_sound)
        (on_tick_closed lcp_protocol l.lcp))
      (on_tick-Inv ipv4cp_protocol l.ipv4cp h.ipv4cp_sound)
      (on_tick_closed ipv4cp_protocol l.ipv4cp)

poll_auth-LinkInv : (l : Link) → LinkInv l → l.phase ≡ auth → LinkInv (poll_auth l).0
unfolding poll_auth closed_ipv4cp
poll_auth-LinkInv l h e = elim (Bool-cases (is_success l.chap || pap_opened l.pap.state)) [
  | inl passed ↦ rw passed (open_ipv4cp-LinkInv l h.lcp_sound h.ipv4cp_sound (h.auth_below e))
  | inr waiting ↦
      let (k, c) = closed_ipv4cp-Inv l.ipv4cp h.ipv4cp_sound in
      rw waiting (record {
        lcp_sound = h.lcp_sound;
        ipv4cp_sound = k;
        auth_below = λ e. c;
        establish_below = λ e. inr c;
      })
]

poll_network-LinkInv : (l : Link) → LinkInv l → l.phase ≡ network → LinkInv (poll_phase network l).0
unfolding poll_phase
poll_network-LinkInv l h e = elim (Bool-cases (is_opened l.ipv4cp.state)) [
  | inl up ↦ rw up (record {
    lcp_sound = h.lcp_sound;
    ipv4cp_sound = h.ipv4cp_sound;
    auth_below = λ e. cc;
    establish_below = λ e. elim e [ inl a ↦ cc | inr b ↦ cc ];
  })
  | inr down ↦ rw down h
]

poll_phase-LinkInv : (p : Phase) (l : Link) → l.phase ≡ p → LinkInv l → LinkInv (poll_phase p l).0
poll_phase-LinkInv dead l e h = unfold poll_phase in h
poll_phase-LinkInv establish l e h = unfold poll_phase in poll_establish-LinkInv l h e
poll_phase-LinkInv auth l e h = unfold poll_phase in poll_auth-LinkInv l h e
poll_phase-LinkInv network l e h = poll_network-LinkInv l h e
poll_phase-LinkInv open_phase l e h = unfold poll_phase in h

end_if_down-LinkInv : (l : Link) → LinkInv l → LinkInv (end_if_down l)
unfolding end_if_down
end_if_down-LinkInv l h =
    elim (Bool-cases ((is_closed l.lcp.state && not l.opening) || l.ipv4cp.failed)) [
      | inl down ↦ rw down (record {
        lcp_sound = h.lcp_sound;
        ipv4cp_sound = h.ipv4cp_sound;
        auth_below = λ e. cc;
        establish_below = λ e. ground (arith, closed_of l.lcp.state);
      })
      | inr up ↦ rw up h
    ]

-- One step of the driver, in any phase, keeps the invariant of the link.
pub poll-LinkInv : (l : Link) → LinkInv l → LinkInv (poll l).0
unfolding poll
poll-LinkInv l h = end_if_down-LinkInv _ (poll_phase-LinkInv l.phase l refl h)

open_from-LinkInv :
    (p : Phase) (l l' : Link) → l.phase ≡ p → LinkInv l → open_from p l ≡ some l' → LinkInv l'
unfolding open_from
open_from-LinkInv dead l l' d h e = subst LinkInv (some-injective _ _ e) (record {
  lcp_sound = h.lcp_sound;
  ipv4cp_sound = h.ipv4cp_sound;
  auth_below = λ e. cc;
  establish_below = λ e. h.establish_below (inr d);
})
open_from-LinkInv establish l l' d h e = cc
open_from-LinkInv auth l l' d h e = cc
open_from-LinkInv network l l' d h e = cc
open_from-LinkInv open_phase l l' d h e = cc

-- Where opening a link succeeds, it keeps the invariant of the link.
pub open_link-LinkInv : (l l' : Link) → LinkInv l → open_link l ≡ some l' → LinkInv l'
unfolding open_link
open_link-LinkInv l l' h e = open_from-LinkInv l.phase l l' refl h e

module _ (md5 : List ℕ → List ℕ) where
  deliver-LinkInv :
      (p : ProtocolType) (l : Link) (pkt : List ℕ) → LinkInv l → LinkInv (deliver md5 p l pkt).0
  unfolding deliver
  deliver-LinkInv ProtocolType.lcp l pkt h =
      lcp_changed l (handle lcp_protocol l.lcp pkt).0 _ h
        (handle-Inv lcp_protocol l.lcp pkt h.lcp_sound) (handle_closed lcp_protocol l.lcp pkt)
  deliver-LinkInv ProtocolType.pap l pkt h = ground arith
  deliver-LinkInv ProtocolType.chap l pkt h = ground arith
  deliver-LinkInv ProtocolType.ipv4 l pkt h = h
  deliver-LinkInv ProtocolType.ipv4cp l pkt h =
      ipv4cp_changed l (handle ipv4cp_protocol l.ipv4cp pkt).0 h
        (handle-Inv ipv4cp_protocol l.ipv4cp pkt h.ipv4cp_sound)
        (handle_closed ipv4cp_protocol l.ipv4cp pkt)
  deliver-LinkInv ProtocolType.unknown l pkt h =
      lcp_changed l (send_protocol_reject lcp_protocol l.lcp pkt).0 l.echo_reply_seen h
        (reject-Inv lcp_protocol l.lcp pkt h.lcp_sound) (λ e. unfold send_protocol_reject in e)

  -- Every inbound payload, well formed or not, keeps the invariant of the link, whatever the digest
  -- function is.
  pub received-LinkInv : (l : Link) (pkt : List ℕ) → LinkInv l → LinkInv (received md5 l pkt).0
  unfolding received
  received-LinkInv l pkt h = elim (Bool-cases (ltb (length pkt) 2)) [
    | inl short ↦ rw short h
    | inr long ↦ rw long (deliver-LinkInv _ l pkt h)
  ]
