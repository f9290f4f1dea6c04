-- ===== src/Pppoe/Tests.antt =====
-- A frame and a redial wait on which the theorems apply.
use zeronat.Base.{
  ℕ, List, ◌∷◌, [], ◌++◌, ◌≡◌, ◌≤◌, refl, inr, length, none, some, take, arith, replicate, drop,
  false, true,
}
use zeronat.Pppoe.Frame.{MacAddr, SessionHeader, parse_session_frame, build_session_frame}
use zeronat.Pppoe.Frame.Laws.{parse_session_frame-build_session_frame, parse_session_frame_range}
use zeronat.Pppoe.Redial.{Redial}
use zeronat.Pppoe.Redial.Laws.{due_all, due_all_wait}

abbrev mac : MacAddr
mac = record { o0 = 2; o1 = 0; o2 = 0; o3 = 0; o4 = 0; o5 = 1 }

abbrev payload : List ℕ
payload = 0xc0 ∷ 0x21 ∷ 9 ∷ []

abbrev padding : List ℕ
padding = 0 ∷ 0 ∷ []

abbrev header : SessionHeader
header = record {
  eth = record { dst = mac; src = mac; ethertype = 0x8864 };
  session_id = 7;
  ppp_start = 20;
  ppp_end = 23;
}

parse_session_frame-build_session_frame_example :
    let frame = build_session_frame mac mac 7 payload ++ padding in
    (parse_session_frame frame ≡ inr header) × (take 3 (drop 20 frame) ≡ payload)
parse_session_frame-build_session_frame_example =
    parse_session_frame-build_session_frame mac mac 7 payload padding (omega arith) (omega arith)

abbrev session_bytes : List ℕ
session_bytes =
    2 ∷ 0 ∷ 0 ∷ 0 ∷ 0 ∷ 1 ∷ 2 ∷ 0 ∷ 0 ∷ 0 ∷ 0 ∷ 1 ∷ 0x88 ∷ 0x64 ∷ 0x11 ∷ 0 ∷ 0 ∷ 7 ∷ 0 ∷ 3 ∷ payload

parse_session_frame_range_example :
    (header.eth.ethertype ≡ 0x8864)
    × (header.ppp_start ≡ 20)
    × (header.ppp_start ≤ header.ppp_end)
    × (header.ppp_end ≤ length session_bytes)
parse_session_frame_range_example =
    parse_session_frame_range session_bytes header (unfold parse_session_frame in refl)

abbrev armed : Redial
armed = record { wait = some 3; next = 6 }

due_all_wait_example :
    due_all 3 armed ≡ (record armed { wait = none }, replicate 2 false ++ (true ∷ []))
due_all_wait_example = due_all_wait 2 armed refl
