-- ===== src/Pppoe/Discovery/Packets.antt =====
-- src/pppoe/discovery.rs: the discovery frames the client sends, and the parser of those it
-- receives.
use zeronat.Base.{
  ℕ, ◌+◌, List, [], ◌∷◌, ◌++◌, ◌⊎◌, inl, inr, ◌==◌, ◌||◌, if◌then◌else◌, Option, Bool, be16, some,
  get_or, length, u16_be, ◌%◌, not, ltb, take, drop, none,
}
use zeronat.Pppoe.Frame.{
  Error, MacAddr, EthHeader, ver_type, put_eth_header, tag_overrun, parse_eth_header, pppoe_hdr_len,
  bad_ether_type, too_short, bad_ver_type, bad_code, length_overrun,
}
use zeronat.Pppoe.Discovery.Tags.{
  Walk, done, failed, stuck, put_tag, walk_tags, tag_service_name, tag_host_uniq, tag_ac_cookie,
}

abbrev pub code_padi : ℕ
code_padi = 0x09

abbrev pub code_pado : ℕ
code_pado = 0x07

abbrev pub code_padr : ℕ
code_padr = 0x19

abbrev pub code_pads : ℕ
code_pads = 0x65

abbrev pub code_padt : ℕ
code_padt = 0xa7

abbrev pub session_id_none : ℕ
session_id_none = 0

abbrev pub ethertype_discovery : ℕ
ethertype_discovery = 0x8863

abbrev pub broadcast : MacAddr
broadcast = record { o0 = 255; o1 = 255; o2 = 255; o3 = 255; o4 = 255; o5 = 255 }

unfoldable pub put_pppoe : List ℕ → ℕ → ℕ → List ℕ → List ℕ
put_pppoe out code session_id payload =
    (((out ++ (ver_type ∷ code ∷ [])) ++ be16 session_id) ++ be16 (length payload % 65536))
    ++ payload

-- `if let Some(v) = … { put_tag(…) }`
unfoldable pub put_optional : List ℕ → ℕ → Option (List ℕ) → List ℕ
put_optional out tag_type none = out
put_optional out tag_type (some value) = put_tag out tag_type value

-- The payloads of a PADI and of a PADR.
unfoldable pub padi_tags : List ℕ → Option (List ℕ) → List ℕ
padi_tags service_name host_uniq =
    put_optional (put_tag [] tag_service_name service_name) tag_host_uniq host_uniq

unfoldable pub padr_tags : List ℕ → Option (List ℕ) → Option (List ℕ) → List ℕ
padr_tags service_name ac_cookie host_uniq =
    put_optional (put_optional (put_tag [] tag_service_name service_name) tag_ac_cookie ac_cookie)
      tag_host_uniq host_uniq

unfoldable pub build_padi : MacAddr → List ℕ → Option (List ℕ) → List ℕ
build_padi src service_name host_uniq =
    put_pppoe (put_eth_header [] broadcast src ethertype_discovery) code_padi session_id_none
      (padi_tags service_name host_uniq)

unfoldable pub build_padr : MacAddr → MacAddr → List ℕ → Option (List ℕ) → Option (List ℕ) → List ℕ
build_padr src ac service_name ac_cookie host_uniq =
    put_pppoe (put_eth_header [] ac src ethertype_discovery) code_padr session_id_none
      (padr_tags service_name ac_cookie host_uniq)

unfoldable pub build_padt : MacAddr → MacAddr → ℕ → List ℕ
build_padt src ac session_id =
    put_pppoe (put_eth_header [] ac src ethertype_discovery) code_padt session_id []

pub record DiscoveryPacket : Type 0 where
  pub eth : EthHeader
  pub code : ℕ
  pub session_id : ℕ
  pub ac_name : Option (List ℕ)
  pub ac_cookie : Option (List ℕ)
  pub host_uniq : Option (List ℕ)

unfoldable pub known_code : ℕ → Bool
known_code code =
    code == code_padi
    || code == code_pado
    || code == code_padr
    || code == code_pads
    || code == code_padt

-- What the parser returns after the walk over the tags. The walk is never stuck.
unfoldable pub packet_of : EthHeader → ℕ → ℕ → Walk → Error ⊎ DiscoveryPacket
packet_of eth code session_id (done f) = inr (record {
  eth = eth;
  code = code;
  session_id = session_id;
  ac_name = f.ac_name;
  ac_cookie = f.ac_cookie;
  host_uniq = f.host_uniq;
})
packet_of eth code session_id (failed e) = inl e
packet_of eth code session_id stuck = inl tag_overrun

-- The PPPoE header behind the Ethernet header, and the payload.
unfoldable pub discovery_behind : List ℕ → EthHeader → ℕ → Error ⊎ DiscoveryPacket
discovery_behind frame eth off =
    let code = get_or frame (off + 1) 0 in
    let session_id = u16_be (get_or frame (off + 2) 0) (get_or frame (off + 3) 0) in
    let len = u16_be (get_or frame (off + 4) 0) (get_or frame (off + 5) 0) in
    let pl_start = off + pppoe_hdr_len in
    if not (eth.ethertype == ethertype_discovery)
    then inl (bad_ether_type eth.ethertype)
    else if ltb (length frame) pl_start
    then inl too_short
    else if not (get_or frame off 0 == ver_type)
    then inl (bad_ver_type (get_or frame off 0))
    else if not (known_code code)
    then inl (bad_code code)
    else if ltb (length frame) (pl_start + len)
    then inl length_overrun
    else packet_of eth code session_id (walk_tags (take len (drop pl_start frame)))

abbrev pub discovery_from : List ℕ → Error ⊎ (EthHeader × ℕ) → Error ⊎ DiscoveryPacket
discovery_from frame (inl e) = inl e
discovery_from frame (inr (eth, off)) = discovery_behind frame eth off

unfoldable pub parse_discovery_frame : List ℕ → Error ⊎ DiscoveryPacket
parse_discovery_frame frame = discovery_from frame (parse_eth_header frame)
