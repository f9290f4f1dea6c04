-- ===== src/Ppp/Session/Tests.antt =====
-- Sessions on which the theorems about the link and the session apply.
use zeronat.Base.{◌++◌, ℕ, List, [], ◌∷◌, refl, ◌≡◌, replicate, some, none, true, false, ◌≢◌, ◌≤◌}
use zeronat.Ppp.Fsm.{opened}
use zeronat.Ppp.Link.{
  Link, new, open_link, poll, received, establish, open_phase, ipv4_status, effective_mru,
}
use zeronat.Ppp.Link.Sound.{LinkInv}
use zeronat.Ppp.Link.Invariant.{new-LinkInv, received-LinkInv, poll-LinkInv, open_link-LinkInv}
use zeronat.Ppp.Link.Authentication.{MayEnter, poll_network}
use zeronat.Ppp.Link.{auth, poll_phase, poll_auth, open_ipv4cp, end_if_down}
use zeronat.Ppp.Fsm.{open_fsm}
use zeronat.Ppp.Lcp.{chap_md5}
use zeronat.Ppp.Chap.{success}
use zeronat.Ppp.Pap.{State as PapState}
use zeronat.Ppp.Session.{PppSession, Established, feed, feed_outcome, established}
use zeronat.Ppp.Session.Laws.{feed_total, established_lem, all_bytes}
use zeronat.Ppp.Ipcp.{no_option, status}

-- Sixteen zeros in place of a digest.
abbrev no_digest : List ℕ → List ℕ
no_digest input = replicate 16 0

abbrev user : List ℕ
user = 0x75 ∷ []

abbrev link : Link
link = new user user 1492 7

abbrev session : PppSession
session = record { ppp = link; out = []; echo_id = 0 }

-- A Configure-Request for an MRU, and a PPP payload of an unknown protocol.
abbrev request : List ℕ
request = 0xc0 ∷ 0x21 ∷ 1 ∷ 9 ∷ 0 ∷ 8 ∷ 1 ∷ 4 ∷ 5 ∷ 0xd4 ∷ []

abbrev opening_link : Link
opening_link = record link { phase = establish; opening = true }

received-LinkInv_example : LinkInv (received no_digest link request).0
received-LinkInv_example = received-LinkInv no_digest link request (new-LinkInv user user 1492 7)

poll-LinkInv_example : LinkInv (poll opening_link).0
poll-LinkInv_example = poll-LinkInv opening_link (
    open_link-LinkInv link opening_link (new-LinkInv user user 1492 7)
      (unfold open_link new in refl))

feed_total_example :
    let (l, sent, outcome) = received no_digest link request in
    let (l', polled) = poll l in
    (feed no_digest session request
      ≡ some (
        record session { ppp = l'; out = all_bytes sent ++ all_bytes polled },
        feed_outcome request outcome,
      ))
    × LinkInv l'
feed_total_example = feed_total no_digest session request (new-LinkInv user user 1492 7)

-- A session whose IPCP has opened on the addresses 10.0.0.2 and 10.0.0.1.
abbrev connected : PppSession
connected = record {
  ppp = record link {
    phase = open_phase;
    ipv4cp = record {
      id = 2;
      state = opened;
      up_seen = true;
      ticks_since_send = 0;
      attempts = 0;
      naks_sent = 0;
      failed = false;
      proto = record {
        peer_address = 0x0a000001;
        address = record { address = 0x0a000002; is_rejected = false };
        dns_server_1 = no_option;
        dns_server_2 = no_option;
        request_dns = false;
      };
    };
  };
  out = [];
  echo_id = 0;
}

abbrev addresses : Established
addresses = record {
  local_ip = 0x0a000002;
  peer_ip = 0x0a000001;
  dns_1 = none;
  dns_2 = none;
  mru = 1492;
}

established_lem_example :
    (connected.ppp.phase ≡ open_phase)
    × (connected.ppp.ipv4cp.state ≡ opened)
    × (addresses.local_ip ≢ 0)
    × (addresses.peer_ip ≢ 0)
    × (addresses.mru ≤ connected.ppp.lcp.proto.mru_local)
    × (addresses.mru ≤ connected.ppp.lcp.proto.mru_remote)
established_lem_example =
    established_lem connected addresses
      (unfold established ipv4_status effective_mru status new in refl)

-- A link in phase Auth whose CHAP has succeeded.
abbrev authenticated : Link
authenticated = record {
  phase = auth;
  opening = false;
  username = user;
  password = user;
  lcp = record {
    id = 2;
    state = opened;
    up_seen = true;
    ticks_since_send = 0;
    attempts = 0;
    naks_sent = 0;
    failed = false;
    proto = record {
      auth = chap_md5;
      mru_local = 1492;
      mru_remote = 1492;
      mru_rej = false;
      magic_local = 7;
      magic_remote = 8;
      magic_rej = false;
    };
  };
  pap = record { state = PapState.closed; id = 1; username = user; password = user };
  chap = success;
  ipv4cp = link.ipv4cp;
  echo_reply_seen = false;
}

poll_network_example : MayEnter authenticated
poll_network_example =
    poll_network authenticated
      (unfold poll poll_phase poll_auth open_ipv4cp end_if_down open_fsm new in refl)
