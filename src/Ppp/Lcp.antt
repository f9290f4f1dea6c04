-- ===== src/Ppp/Lcp.antt =====
-- src/pppoe/ppp/lcp.rs: the LCP side of the option negotiation.
pub mod Laws
use zeronat.Base.{
  ℕ, Bool, true, false, Option, none, some, List, [], ◌∷◌, ◌++◌, ltb, ◌==◌, if◌then◌else◌, be16,
  be32, u16_be, u32_be, beq_bytes,
}
use zeronat.Ppp.Wire.{ProtocolType, OptionVal}
use zeronat.Ppp.Fsm.{Verdict, ack, rej, Protocol}

-- The option codes that the code understands.
pub data LcpOption : Type 0 where
  unknown mru asyncmap auth magic_number : LcpOption

unfoldable pub option_from_u8 : ℕ → LcpOption
option_from_u8 v =
    if v == 1
    then mru
    else if v == 2
    then asyncmap
    else if v == 3
    then auth
    else if v == 5
    then magic_number
    else unknown

pub data AuthType : Type 0 where
  no_auth pap chap_md5 : AuthType

pub record Lcp : Type 0 where
  pub auth : AuthType
  pub mru_local : ℕ  -- u16
  pub mru_remote : ℕ  -- u16
  pub mru_rej : Bool
  pub magic_local : ℕ  -- u32
  pub magic_remote : ℕ  -- u32
  pub magic_rej : Bool

unfoldable pub new : ℕ → ℕ → Lcp
new mru_local magic_local = record {
  auth = no_auth;
  mru_local = mru_local;
  mru_remote = 1500;
  mru_rej = false;
  magic_local = magic_local;
  magic_remote = 0;
  magic_rej = false;
}

unfoldable pub peer_options_start : Lcp → Lcp
peer_options_start l = record l { auth = no_auth }

-- The values of the two auth proposals that are accepted: CHAP with MD5, and PAP.
abbrev pub chap_md5_proposal : List ℕ
chap_md5_proposal = 0xc2 ∷ 0x23 ∷ 0x05 ∷ []

abbrev pub pap_proposal : List ℕ
pap_proposal = 0xc0 ∷ 0x23 ∷ []

-- Bodies of exactly two and four bytes, as the integers that they hold.
abbrev pub two_bytes : List ℕ → Option ℕ
two_bytes (a ∷ b ∷ []) = some (u16_be a b)
two_bytes _ = none

abbrev pub four_bytes : List ℕ → Option ℕ
four_bytes (a ∷ b ∷ c ∷ d ∷ []) = some (u32_be a b c d)
four_bytes _ = none

peer_option : LcpOption → Lcp → List ℕ → Lcp × Verdict
peer_option unknown l body = (l, rej)
peer_option mru l body = accept (two_bytes body)
  where
    accept : Option ℕ → Lcp × Verdict
    accept (some v) = (record l { mru_remote = v }, ack)
    accept none = (l, rej)
peer_option asyncmap l body = (l, accept (four_bytes body))
  where
    accept : Option ℕ → Verdict
    accept (some v) = ack
    accept none = rej
peer_option auth l body =
    if beq_bytes body chap_md5_proposal
    then (record l { auth = chap_md5 }, ack)
    else if beq_bytes body pap_proposal
    then (record l { auth = pap }, ack)
    else (l, rej)
peer_option magic_number l body = accept (four_bytes body)
  where
    accept : Option ℕ → Lcp × Verdict
    accept (some v) = (record l { magic_remote = v }, ack)
    accept none = (l, rej)

unfoldable pub peer_option_received : Lcp → ℕ → List ℕ → Lcp × Verdict
unfolding peer_option option_from_u8
peer_option_received l code body = peer_option (option_from_u8 code) l body

unfoldable pub own_options : Lcp → List OptionVal
own_options l =
    (if l.mru_rej then [] else record { code = 1; body = be16 l.mru_local } ∷ [])
    ++ (if l.magic_rej then [] else record { code = 5; body = be32 l.magic_local } ∷ [])

own_nacked : LcpOption → Lcp → List ℕ → Bool → Lcp
own_nacked mru l body true = record l { mru_rej = true }
own_nacked mru l body false = adopt (two_bytes body)
  where
    adopt : Option ℕ → Lcp
    adopt (some v) = if ltb v l.mru_local then record l { mru_local = v } else l
    adopt none = record l { mru_rej = true }
own_nacked magic_number l body true = record l { magic_rej = true }
own_nacked magic_number l body false = adopt (four_bytes body)
  where
    adopt : Option ℕ → Lcp
    adopt (some v) = record l { magic_local = v }
    adopt none = record l { magic_rej = true }
own_nacked _ l body is_rej = l

unfoldable pub own_option_nacked : Lcp → ℕ → List ℕ → Bool → Lcp
unfolding own_nacked option_from_u8
own_option_nacked l code body is_rej = own_nacked (option_from_u8 code) l body is_rej

abbrev pub lcp_protocol : Protocol Lcp
lcp_protocol = record {
  protocol = λ l. ProtocolType.lcp;
  own_options = own_options;
  own_option_nacked = own_option_nacked;
  peer_options_start = peer_options_start;
  peer_option_received = peer_option_received;
  echo_reply_magic = λ l. some l.magic_local;
}
