-- ===== src/Ppp/Ipcp.antt =====
-- src/pppoe/ppp/ipv4cp.rs: the IPCP side of the option negotiation.
-- An `Ipv4Addr` is its 32-bit number; `UNSPECIFIED` is 0.
pub mod Laws
use zeronat.Base.{
  ℕ, Bool, true, false, Option, none, some, List, [], ◌∷◌, ◌++◌, ◌==◌, ◌||◌, if◌then◌else◌, be32,
}
use zeronat.Ppp.Wire.{ProtocolType, OptionVal}
use zeronat.Ppp.Fsm.{Verdict, ack, rej, Protocol}
use zeronat.Ppp.Lcp.{four_bytes}

pub data OptionCode : Type 0 where
  unknown ip_address dns1 dns2 : OptionCode

unfoldable pub code_from_u8 : ℕ → OptionCode
code_from_u8 v =
    if v == 3 then ip_address else if v == 129 then dns1 else if v == 131 then dns2 else unknown

pub record IpOption : Type 0 where
  pub address : ℕ
  pub is_rejected : Bool

abbrev pub no_option : IpOption
no_option = record { address = 0; is_rejected = false }

-- `IpOption::get`
unfoldable pub get : IpOption → Option ℕ
get o = if o.is_rejected || o.address == 0 then none else some o.address

-- `IpOption::nacked`
unfoldable pub nacked : IpOption → List ℕ → Bool → IpOption
nacked o body true = record o { is_rejected = true }
nacked o body false = adopt (four_bytes body)
  where
    adopt : Option ℕ → IpOption
    adopt (some v) = record o { address = v }
    adopt none = record o { is_rejected = true }

pub record Ipv4Status : Type 0 where
  pub address : Option ℕ
  pub peer_address : Option ℕ
  pub dns_server_1 : Option ℕ
  pub dns_server_2 : Option ℕ

pub record Ipv4cp : Type 0 where
  pub peer_address : ℕ
  pub address : IpOption
  pub dns_server_1 : IpOption
  pub dns_server_2 : IpOption
  pub request_dns : Bool

unfoldable pub new : Ipv4cp
new = record {
  peer_address = 0;
  address = no_option;
  dns_server_1 = no_option;
  dns_server_2 = no_option;
  request_dns = false;
}

unfoldable pub set_request_dns : Ipv4cp → Bool → Ipv4cp
set_request_dns c on = record c { request_dns = on }

unfoldable pub status : Ipv4cp → Ipv4Status
unfolding get
status c = record {
  address = get c.address;
  peer_address = if c.peer_address == 0 then none else some c.peer_address;
  dns_server_1 = get c.dns_server_1;
  dns_server_2 = get c.dns_server_2;
}

peer_option : OptionCode → Ipv4cp → List ℕ → Ipv4cp × Verdict
peer_option ip_address c body = accept (four_bytes body)
  where
    accept : Option ℕ → Ipv4cp × Verdict
    accept (some v) = (record c { peer_address = v }, ack)
    accept none = (c, rej)
peer_option _ c body = (c, rej)

unfoldable pub peer_option_received : Ipv4cp → ℕ → List ℕ → Ipv4cp × Verdict
unfolding peer_option code_from_u8
peer_option_received c code body = peer_option (code_from_u8 code) c body

request : ℕ → IpOption → List OptionVal
request code o = if o.is_rejected then [] else record { code = code; body = be32 o.address } ∷ []

unfoldable pub own_options : Ipv4cp → List OptionVal
unfolding request
own_options c =
    request 3 c.address
    ++ (if c.request_dns then request 129 c.dns_server_1 ++ request 131 c.dns_server_2 else [])

own_nacked : OptionCode → Ipv4cp → List ℕ → Bool → Ipv4cp
unfolding nacked
own_nacked unknown c body is_rej = c
own_nacked ip_address c body is_rej = record c { address = nacked c.address body is_rej }
own_nacked dns1 c body is_rej = record c { dns_server_1 = nacked c.dns_server_1 body is_rej }
own_nacked dns2 c body is_rej = record c { dns_server_2 = nacked c.dns_server_2 body is_rej }

unfoldable pub own_option_nacked : Ipv4cp → ℕ → List ℕ → Bool → Ipv4cp
unfolding own_nacked code_from_u8
own_option_nacked c code body is_rej = own_nacked (code_from_u8 code) c body is_rej

abbrev pub ipv4cp_protocol : Protocol Ipv4cp
ipv4cp_protocol = record {
  protocol = λ c. ProtocolType.ipv4cp;
  own_options = own_options;
  own_option_nacked = own_option_nacked;
  peer_options_start = λ c. c;
  peer_option_received = peer_option_received;
  echo_reply_magic = λ c. none;
}
