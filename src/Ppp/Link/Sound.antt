-- ===== src/Ppp/Link/Sound.antt =====
-- The invariant of a PPP link: its two automata are sound, and each is opened from `Closed` only.
use zeronat.Base.{ℕ, ◌≡◌, ◌⊎◌, inl, inr, Bool, true, List, arith}
use zeronat.Ppp.Fsm.{
  OptionFsm, State, closed, req_sent, is_closed, Protocol, on_tick, open_fsm, send_protocol_reject,
}
use zeronat.Ppp.Lcp.{Lcp}
use zeronat.Ppp.Ipcp.{Ipv4cp}
use zeronat.Ppp.Negotiation.Invariant.{Inv}
use zeronat.Ppp.Link.{Link, dead, establish, auth}

pub record LinkInv (l : Link) : Type 0 where
  pub lcp_sound : Inv l.lcp
  pub ipv4cp_sound : Inv l.ipv4cp
  pub auth_below : l.phase ≡ auth → l.ipv4cp.state ≡ closed
  pub establish_below :
      (l.phase ≡ establish) ⊎ (l.phase ≡ dead) → (l.lcp.state ≡ closed) ⊎ (l.ipv4cp.state ≡ closed)

pub closed_of : (s : State) → is_closed s ≡ true → s ≡ closed
closed_of s e = ground arith

pub on_tick_closed :
    {P : Type 0} (pr : Protocol P) (f : OptionFsm P)
    → f.state ≡ closed
    → (on_tick pr f).0.state ≡ closed
unfolding on_tick
on_tick_closed pr f e = ground arith

pub open_fsm_state :
    {P : Type 0} (pr : Protocol P) (f : OptionFsm P)
    → f.state ≡ closed
    → (open_fsm pr f).0.state ≡ req_sent
unfolding open_fsm
open_fsm_state pr f e = ground arith

pub reject-Inv :
    {P : Type 0} (pr : Protocol P) (f : OptionFsm P) (pkt : List ℕ)
    → Inv f
    → Inv (send_protocol_reject pr f pkt).0
unfolding send_protocol_reject
reject-Inv pr f pkt h = ground arith

-- One automaton of the link is replaced by one that is sound and closed where it was closed.
pub lcp_changed :
    (l : Link) (f : OptionFsm Lcp) (seen : Bool)
    → LinkInv l
    → Inv f
    → (l.lcp.state ≡ closed → f.state ≡ closed)
    → LinkInv (record l { lcp = f; echo_reply_seen = seen })
lcp_changed l f seen h k c = record {
  lcp_sound = k;
  ipv4cp_sound = h.ipv4cp_sound;
  auth_below = h.auth_below;
  establish_below = λ e. elim (h.establish_below e) [ inl a ↦ inl (c a) | inr b ↦ inr b ];
}

pub ipv4cp_changed :
    (l : Link) (f : OptionFsm Ipv4cp)
    → LinkInv l
    → Inv f
    → (l.ipv4cp.state ≡ closed → f.state ≡ closed)
    → LinkInv (record l { ipv4cp = f })
ipv4cp_changed l f h k c = record {
  lcp_sound = h.lcp_sound;
  ipv4cp_sound = k;
  auth_below = λ e. c (h.auth_below e);
  establish_below = λ e. elim (h.establish_below e) [ inl a ↦ inl a | inr b ↦ inr (c b) ];
}
