-- ===== src/Pppoe/Frame.antt =====
-- src/pppoe/session.rs: the Ethernet header and the PPPoE session frame. A frame is a list of
-- bytes; the sum of two lengths does not overflow, so `checked_add` is the sum.
pub mod Laws
use zeronat.Base.{
  ℕ, List, ◌∷◌, [], ◌++◌, be16, get_or, ◌⊎◌, ◌+◌, if◌then◌else◌, length, inl, ltb, ◌%◌, u16_be, inr,
  not, ◌==◌,
}

pub record MacAddr : Type 0 where
  pub o0 : ℕ
  pub o1 : ℕ
  pub o2 : ℕ
  pub o3 : ℕ
  pub o4 : ℕ
  pub o5 : ℕ

-- `octets`
unfoldable pub octets : MacAddr → List ℕ
octets m = m.o0 ∷ m.o1 ∷ m.o2 ∷ m.o3 ∷ m.o4 ∷ m.o5 ∷ []

-- The errors that the codecs return.
pub data Error : Type 0 where
  too_short length_overrun tag_overrun : Error
  bad_ether_type bad_ver_type bad_code : ℕ → Error

pub record EthHeader : Type 0 where
  pub dst : MacAddr
  pub src : MacAddr
  pub ethertype : ℕ

pub record SessionHeader : Type 0 where
  pub eth : EthHeader
  pub session_id : ℕ
  pub ppp_start : ℕ
  pub ppp_end : ℕ

abbrev pub eth_hdr_len : ℕ
eth_hdr_len = 14

abbrev pub pppoe_hdr_len : ℕ
pppoe_hdr_len = 6

abbrev pub ethertype_session : ℕ
ethertype_session = 0x8864

abbrev pub ver_type : ℕ
ver_type = 0x11

abbrev pub code_session : ℕ
code_session = 0

unfoldable pub put_eth_header : List ℕ → MacAddr → MacAddr → ℕ → List ℕ
unfolding octets
put_eth_header out dst src ethertype = ((out ++ octets dst) ++ octets src) ++ be16 ethertype

-- The six octets at an offset of a frame that has them.
abbrev pub mac_at : List ℕ → ℕ → MacAddr
mac_at frame at = record {
  o0 = get_or frame at 0;
  o1 = get_or frame (at + 1) 0;
  o2 = get_or frame (at + 2) 0;
  o3 = get_or frame (at + 3) 0;
  o4 = get_or frame (at + 4) 0;
  o5 = get_or frame (at + 5) 0;
}

-- The header and the offset behind it.
unfoldable pub parse_eth_header : List ℕ → Error ⊎ (EthHeader × ℕ)
parse_eth_header frame =
    if ltb (length frame) 6
    then inl too_short
    else if ltb (length frame) 12
    then inl too_short
    else if ltb (length frame) 14
    then inl too_short
    else inr (
      record {
        dst = mac_at frame 0;
        src = mac_at frame 6;
        ethertype = u16_be (get_or frame 12 0) (get_or frame 13 0);
      },
      eth_hdr_len,
    )

unfoldable pub build_session_frame : MacAddr → MacAddr → ℕ → List ℕ → List ℕ
unfolding put_eth_header
build_session_frame dst src session_id ppp_payload =
    let out = put_eth_header [] dst src ethertype_session ++ (ver_type ∷ code_session ∷ []) in
    ((out ++ be16 session_id) ++ be16 (length ppp_payload % 65536)) ++ ppp_payload

-- The PPPoE header behind the Ethernet header.
unfoldable pub parse_behind : List ℕ → EthHeader → ℕ → Error ⊎ SessionHeader
parse_behind frame eth off =
    let ver = get_or frame off 0 in
    let code = get_or frame (off + 1) 0 in
    let session_id = u16_be (get_or frame (off + 2) 0) (get_or frame (off + 3) 0) in
    let len = u16_be (get_or frame (off + 4) 0) (get_or frame (off + 5) 0) in
    let start = off + pppoe_hdr_len in
    if not (eth.ethertype == ethertype_session)
    then inl (bad_ether_type eth.ethertype)
    else if ltb (length frame) start
    then inl too_short
    else if not (ver == ver_type)
    then inl (bad_ver_type ver)
    else if not (code == code_session)
    then inl (bad_code code)
    else if ltb (length frame) (start + len)
    then inl length_overrun
    else inr
        (record { eth = eth; session_id = session_id; ppp_start = start; ppp_end = start + len })

abbrev parse_from : List ℕ → Error ⊎ (EthHeader × ℕ) → Error ⊎ SessionHeader
parse_from frame (inl e) = inl e
parse_from frame (inr (eth, off)) = parse_behind frame eth off

unfoldable pub parse_session_frame : List ℕ → Error ⊎ SessionHeader
unfolding parse_eth_header parse_behind
parse_session_frame frame = parse_from frame (parse_eth_header frame)
