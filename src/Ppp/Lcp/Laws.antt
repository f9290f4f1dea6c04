-- ===== src/Ppp/Lcp/Laws.antt =====
-- What LCP learns from the peer, and what it lets the peer change.
use zeronat.Base.{
  length, ℕ, ◌≤◌, ◌≡◌, ◌≢◌, refl, Bool, List, [], ◌∷◌, arith, if◌then◌else◌, beq_bytes, ◌==◌, ◌∙◌,
  ap, none, drop,
}
use zeronat.Ppp.Options.{malformed}
use zeronat.Ppp.Options.Scan.{scan}
use zeronat.Ppp.Wire.{OptionVal}
use zeronat.Ppp.Fsm.{nack, OptionFsm, collect_reply, received_configure_req}
use zeronat.Ppp.Negotiation.Opening.{receive_all}
use zeronat.Ppp.Negotiation.Answer.{proto_after, collect_reply-worst}
use zeronat.Ppp.Negotiation.Data.{receive_all-keeps}
use zeronat.Ppp.Lcp.{
  Lcp, AuthType, no_auth, pap, chap_md5, lcp_protocol, peer_options_start, peer_option_received,
  own_option_nacked, chap_md5_proposal, pap_proposal,
}

-- The authentication that the options offer: the last proposal of a known one counts.
abbrev pub offered : AuthType → List OptionVal → AuthType
offered a [] = a
offered a (o ∷ os) =
    offered
      (if o.code == 3
        then if beq_bytes o.body chap_md5_proposal
          then chap_md5
          else if beq_bytes o.body pap_proposal
          then pap
          else a
        else a)
      os

peer_option_auth :
    (l : Lcp) (o : OptionVal)
    → (peer_option_received l o.code o.body).0.auth ≡ (
        if o.code == 3
        then if beq_bytes o.body chap_md5_proposal
          then chap_md5
          else if beq_bytes o.body pap_proposal
          then pap
          else l.auth
        else l.auth)
unfolding peer_option_received
peer_option_auth l o = ground arith

proto_after_auth :
    (l : Lcp) (os : List OptionVal) → (proto_after lcp_protocol l os).auth ≡ offered l.auth os
unfolding proto_after
proto_after_auth l [] = refl
proto_after_auth l (o ∷ os) =
    proto_after_auth (peer_option_received l o.code o.body).0 os
    ∙ ap (λ a. offered a os) (peer_option_auth l o)

own_nacked_mru :
    (l : Lcp) (code : ℕ) (body : List ℕ) (is_rej : Bool)
    → (own_option_nacked l code body is_rej).mru_local ≤ l.mru_local
unfolding own_option_nacked
own_nacked_mru l code body is_rej = ground arith

peer_option_mru :
    (l : Lcp) (code : ℕ) (body : List ℕ)
    → (peer_option_received l code body).0.mru_local ≡ l.mru_local
unfolding peer_option_received
peer_option_mru l code body = ground arith

-- No packets of the peer's, in any order, raise the MRU that we advertise.
pub mru_local_falls :
    (f : OptionFsm Lcp) (pkts : List (List ℕ))
    → (receive_all lcp_protocol f pkts).0.proto.mru_local ≤ f.proto.mru_local
mru_local_falls f pkts =
    receive_all-keeps lcp_protocol (λ l. l.mru_local ≤ f.proto.mru_local)
      (λ l h. unfold peer_options_start in h) (λ l code body h. rw (peer_option_mru l code body) h)
      (λ l code body is_rej h. omega (arith, own_nacked_mru l code body is_rej)) f pkts
      (omega arith)

-- After the options of a request the authentication is what they offer: the last of the known
-- proposals, and none without one, whatever was negotiated before.
pub auth-offered :
    (f : OptionFsm Lcp) (opts_in : List ℕ)
    → (collect_reply lcp_protocol f opts_in).0.proto.auth ≡ offered no_auth (scan opts_in).0
auth-offered f opts_in =
    ap (λ r. r.0.proto.auth) (collect_reply-worst lcp_protocol f opts_in)
    ∙ proto_after_auth (peer_options_start f.proto) (scan opts_in).0
    ∙ unfold peer_options_start in refl

-- The options of a malformed request are seen as well: if the first of them is malformed, the
-- negotiated authentication is forgotten, though the request is dropped.
pub malformed-forgets_auth :
    (f : OptionFsm Lcp) (pkt : List ℕ)
    → 6 ≤ length pkt
    → scan (drop 6 pkt) ≡ ([], malformed)
    → ((received_configure_req lcp_protocol f pkt).0.proto.auth ≡ no_auth)
      × ((received_configure_req lcp_protocol f pkt).1 ≡ none)
unfolding received_configure_req
malformed-forgets_auth f pkt h e =
    ground (arith, auth-offered f (drop 6 pkt), collect_reply-worst lcp_protocol f (drop 6 pkt))

-- LCP judges no option of the peer with a Nak: it acknowledges or rejects.
pub never_naks :
    (l : Lcp) (code : ℕ) (body suggested : List ℕ)
    → (peer_option_received l code body).1 ≢ nack suggested
unfolding peer_option_received
never_naks l code body suggested = ground arith
