-- ===== src/Ppp/Tests.antt =====
-- Inputs on which the theorems about the PPP stack apply: options, the protocols and the session.
use zeronat.Base.{refl, ℕ, List, [], ◌∷◌, replicate, ◌≡◌, ◌≢◌, ◌≤◌, some, arith, none}
use zeronat.Ppp.Wire.{ProtocolType, ppp, options, configure_req, OptionVal, Packet, emit}
use zeronat.Ppp.Wire.Emit.{emit-render, render, render_options}
use zeronat.Ppp.Options.{parse_options, stuck}
use zeronat.Ppp.Options.Scan.{scan, parse_options-ne-stuck, render-scan}
use zeronat.Ppp.Fsm.{OptionFsm, new, collect_reply, received_configure_req}
use zeronat.Ppp.Lcp.{Lcp, new as new_lcp, lcp_protocol, no_auth}
use zeronat.Ppp.Lcp.Laws.{mru_local_falls, auth-offered, offered, malformed-forgets_auth}
use zeronat.Ppp.Negotiation.Opening.{receive_all}

abbrev mru_option : OptionVal
mru_option = record { code = 1; body = 5 ∷ 0xd4 ∷ [] }

abbrev chap_option : OptionVal
chap_option = record { code = 3; body = 0xc2 ∷ 0x23 ∷ 5 ∷ [] }

abbrev two_options : List OptionVal
two_options = mru_option ∷ chap_option ∷ []

abbrev option_bytes : List ℕ
option_bytes = 1 ∷ 4 ∷ 5 ∷ 0xd4 ∷ 3 ∷ 5 ∷ 0xc2 ∷ 0x23 ∷ 5 ∷ []

-- The second option says that it is longer than the packet.
abbrev cut_bytes : List ℕ
cut_bytes = 1 ∷ 4 ∷ 5 ∷ 0xd4 ∷ 3 ∷ 9 ∷ 0xc2 ∷ []

abbrev request : Packet
request = record { proto = ProtocolType.lcp; payload = ppp configure_req 9 (options two_options) }

abbrev lcp_start : OptionFsm Lcp
lcp_start = new (new_lcp 1492 0x01020304)

abbrev collect_codes : List ℕ → ℕ → List ℕ → List ℕ
collect_codes codes code body = code ∷ codes

-- A Nak of the MRU, suggesting 1400.
abbrev nak_1400 : List ℕ
nak_1400 = 0xc0 ∷ 0x21 ∷ 3 ∷ 2 ∷ 0 ∷ 8 ∷ 1 ∷ 4 ∷ 5 ∷ 0x78 ∷ []

abbrev empty_buffer : List ℕ
empty_buffer = replicate 15 0

emit-render_example : emit request empty_buffer ≡ some (render request)
emit-render_example = emit-render request empty_buffer refl

parse_options-ne-stuck_example : (parse_options collect_codes [] cut_bytes).1 ≢ stuck
parse_options-ne-stuck_example = parse_options-ne-stuck collect_codes [] cut_bytes

render-scan_example : render_options (scan option_bytes).0 ≡ option_bytes
render-scan_example = render-scan option_bytes (ground arith) (unfold scan in refl)

mru_local_falls_example :
    (receive_all lcp_protocol lcp_start (nak_1400 ∷ [])).0.proto.mru_local
    ≤ lcp_start.proto.mru_local
mru_local_falls_example = mru_local_falls lcp_start (nak_1400 ∷ [])

auth-offered_example :
    (collect_reply lcp_protocol lcp_start option_bytes).0.proto.auth
    ≡ offered no_auth (scan option_bytes).0
auth-offered_example = auth-offered lcp_start option_bytes

-- A request whose first option is longer than the packet.
abbrev cut_request : List ℕ
cut_request = 0xc0 ∷ 0x21 ∷ 1 ∷ 9 ∷ 0 ∷ 7 ∷ 3 ∷ 9 ∷ 0xc2 ∷ []

malformed-forgets_auth_example :
    ((received_configure_req lcp_protocol lcp_start cut_request).0.proto.auth ≡ no_auth)
    × ((received_configure_req lcp_protocol lcp_start cut_request).1 ≡ none)
malformed-forgets_auth_example =
    malformed-forgets_auth lcp_start cut_request (omega arith) (unfold scan in refl)
