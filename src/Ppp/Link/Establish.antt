-- ===== src/Ppp/Link/Establish.antt =====
-- One `poll` in phase Establish keeps the invariant of the link.
use zeronat.Base.{◌&&◌, not, ◌≡◌, inl, inr, refl, arith, Bool-cases, if◌then◌else◌}
use zeronat.Ppp.Fsm.{OptionFsm, closed, opened, is_closed, close as close_fsm}
use zeronat.Ppp.Lcp.{AuthType, no_auth, pap, chap_md5, lcp_protocol}
use zeronat.Ppp.Ipcp.{Ipv4cp, ipv4cp_protocol}
use zeronat.Ppp.Negotiation.Invariant.{Inv, open_fsm-Inv, close-Inv}
use zeronat.Ppp.Link.{
  Link, establish, poll_establish, start_lcp, open_lcp, authenticate, open_ipv4cp, close_below,
  is_opened,
}
use zeronat.Ppp.Link.Sound.{LinkInv, closed_of, open_fsm_state}

-- Between the two halves of `poll` in `Establish`.
record Started (l : Link) : Type 0 where
  lcp_sound : Inv l.lcp
  ipv4cp_sound : Inv l.ipv4cp
  in_establish : l.phase ≡ establish
  below : l.lcp.state ≡ opened → l.ipv4cp.state ≡ closed

start_lcp-Started : (l : Link) → LinkInv l → l.phase ≡ establish → Started (start_lcp l).0
unfolding start_lcp open_lcp
start_lcp-Started l h e = elim (Bool-cases (is_closed l.lcp.state && not l.lcp.failed)) [
  | inl idle ↦
      let c : l.lcp.state ≡ closed = closed_of l.lcp.state (ground arith) in
      rw idle (record {
        lcp_sound = open_fsm-Inv lcp_protocol l.lcp h.lcp_sound c;
        ipv4cp_sound = h.ipv4cp_sound;
        in_establish = e;
        below = λ o. cc (open_fsm_state lcp_protocol l.lcp c);
      })
  | inr busy ↦ rw busy (record {
    lcp_sound = h.lcp_sound;
    ipv4cp_sound = h.ipv4cp_sound;
    in_establish = e;
    below = λ o. elim (h.establish_below (inl e)) [ inl a ↦ cc | inr b ↦ b ];
  })
]

pub open_ipv4cp-LinkInv :
    (l : Link) → Inv l.lcp → Inv l.ipv4cp → l.ipv4cp.state ≡ closed → LinkInv (open_ipv4cp l).0
unfolding open_ipv4cp
open_ipv4cp-LinkInv l h k c = record {
  lcp_sound = h;
  ipv4cp_sound = open_fsm-Inv ipv4cp_protocol l.ipv4cp k c;
  auth_below = λ e. cc;
  establish_below = λ e. elim e [ inl a ↦ cc | inr b ↦ cc ];
}

authenticate-LinkInv :
    (a : AuthType) (l : Link) → Started l → l.lcp.state ≡ opened → LinkInv (authenticate a l).0
unfolding authenticate
authenticate-LinkInv no_auth l h o = open_ipv4cp-LinkInv l h.lcp_sound h.ipv4cp_sound (h.below o)
authenticate-LinkInv chap_md5 l h o = record {
  lcp_sound = h.lcp_sound;
  ipv4cp_sound = h.ipv4cp_sound;
  auth_below = λ e. h.below o;
  establish_below = λ e. inr (h.below o);
}
authenticate-LinkInv pap l h o = record {
  lcp_sound = h.lcp_sound;
  ipv4cp_sound = h.ipv4cp_sound;
  auth_below = λ e. h.below o;
  establish_below = λ e. inr (h.below o);
}

-- The IPCP of a link after `close` where it was not closed already.
unfoldable pub closed_ipv4cp : (f : OptionFsm Ipv4cp) → OptionFsm Ipv4cp
closed_ipv4cp f = if is_closed f.state then f else close_fsm f

pub closed_ipv4cp-Inv :
    (f : OptionFsm Ipv4cp) → Inv f → Inv (closed_ipv4cp f) × ((closed_ipv4cp f).state ≡ closed)
unfolding closed_ipv4cp
closed_ipv4cp-Inv f h = elim (Bool-cases (is_closed f.state)) [
  | inl c ↦ rw c (h, closed_of f.state c)
  | inr c ↦ rw c (close-Inv f h, unfold close_fsm in refl)
]

close_below-LinkInv : (l : Link) → Started l → LinkInv (close_below l)
unfolding close_below closed_ipv4cp
close_below-LinkInv l h =
    let (k, c) = closed_ipv4cp-Inv l.ipv4cp h.ipv4cp_sound in
    record {
      lcp_sound = h.lcp_sound;
      ipv4cp_sound = k;
      auth_below = λ e. c;
      establish_below = λ e. inr c;
    }

pub poll_establish-LinkInv :
    (l : Link) → LinkInv l → l.phase ≡ establish → LinkInv (poll_establish l).0
unfolding poll_establish
poll_establish-LinkInv l h e =
    let l' = (start_lcp l).0 in
    let s = start_lcp-Started l h e in
    elim (Bool-cases (is_opened l'.lcp.state)) [
      | inl up ↦ rw up (authenticate-LinkInv l'.lcp.proto.auth l' s (ground arith))
      | inr down ↦ rw down (close_below-LinkInv l' s)
    ]
