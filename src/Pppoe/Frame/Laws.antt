-- ===== src/Pppoe/Frame/Laws.antt =====
-- The session frame is read back, with padding behind it, and a range that is returned lies inside
-- the frame.
use zeronat.Base.{
  ◌+◌, arith, length-append, take-append, ℕ, List, ◌++◌, ◌≡◌, ◌≤◌, ◌<◌, inr, length, arith, take,
  drop,
}
use zeronat.Pppoe.Frame.{MacAddr, SessionHeader, parse_session_frame, build_session_frame}

-- A frame that is built for a payload of at most 65535 bytes is parsed to its addresses, its
-- session and the range of the payload, whatever padding the Ethernet put behind it.
pub parse_session_frame-build_session_frame :
    (dst src : MacAddr) (id : ℕ) (payload padding : List ℕ)
    → id < 65536
    → length payload < 65536
    → let frame = build_session_frame dst src id payload ++ padding in
      (parse_session_frame frame
        ≡ inr (record {
          eth = record { dst = dst; src = src; ethertype = 0x8864 };
          session_id = id;
          ppp_start = 20;
          ppp_end = 20 + length payload;
        }))
      × (take (length payload) (drop 20 frame) ≡ payload)
unfolding parse_session_frame build_session_frame
parse_session_frame-build_session_frame dst src id payload padding hi hp =
    (ground (arith, length-append payload padding), take-append payload padding)

-- On any bytes, a parsed frame is a session frame and its payload range lies inside the bytes.
pub parse_session_frame_range :
    (frame : List ℕ) (h : SessionHeader)
    → parse_session_frame frame ≡ inr h
    → (h.eth.ethertype ≡ 0x8864)
      × (h.ppp_start ≡ 20)
      × (h.ppp_start ≤ h.ppp_end)
      × (h.ppp_end ≤ length frame)
unfolding parse_session_frame
parse_session_frame_range frame h e = ground arith
