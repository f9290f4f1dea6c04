-- ===== src/Ppp/Link/Authentication.antt =====
-- What the way into phase Network needs.
use zeronat.Base.{◌≡◌, ◌⊎◌, inl, refl, true, ◌||◌, arith}
use zeronat.Ppp.Fsm.{open_fsm, opened}
use zeronat.Ppp.Link.{
  Link, Phase, dead, establish, auth, network, open_phase, poll, poll_phase, poll_establish,
  poll_auth, start_lcp, open_lcp, authenticate, open_ipv4cp, close_below, end_if_down, pap_opened,
}
use zeronat.Ppp.Chap.{is_success}
use zeronat.Ppp.Lcp.{no_auth}

-- The ways into phase Network.
abbrev pub MayEnter : Link → Type 0
MayEnter l =
    (l.phase ≡ network)
    ⊎ (((l.phase ≡ establish) × (l.lcp.state ≡ opened) × (l.lcp.proto.auth ≡ no_auth))
        ⊎ ((l.phase ≡ auth) × ((is_success l.chap || pap_opened l.pap.state) ≡ true)))

poll_phase_network :
    (p : Phase) (l : Link)
    → l.phase ≡ p
    → (end_if_down (poll_phase p l).0).phase ≡ network
    → MayEnter l
unfolding poll_phase poll_establish poll_auth start_lcp open_lcp authenticate open_ipv4cp
    close_below end_if_down open_fsm
poll_phase_network dead l e h = ground arith
poll_phase_network establish l e h = ground arith
poll_phase_network auth l e h = ground arith
poll_phase_network network l e h = inl e
poll_phase_network open_phase l e h = ground arith

-- A poll that ends in phase Network was in it before, or LCP was Opened in phase Establish with no
-- authentication in its state, or CHAP or PAP has succeeded in phase Auth.
pub poll_network : (l : Link) → (poll l).0.phase ≡ network → MayEnter l
unfolding poll
poll_network l h = poll_phase_network l.phase l refl h
