-- ===== src/Ppp/Session/Laws.antt =====
-- The session never panics, keeps the link's invariant, and reports an address only when it has one.
use zeronat.Base.{
  ◌+◌, ◌%◌, if◌then◌else◌, true, false, Bool, ℕ, ◌≤◌, ◌≡◌, ◌≢◌, refl, some, List, [], ◌∷◌, ◌++◌,
  arith, length-replicate, replicate,
}
use zeronat.Ppp.Wire.{packet_len, Packet}
use zeronat.Ppp.Wire.Emit.{render, emit-render}
use zeronat.Ppp.Fsm.{opened, link_up, send_echo_request as fsm_echo_request}
use zeronat.Ppp.Lcp.{lcp_protocol}
use zeronat.Ppp.Link.{
  lcp_echo_request, open_phase, Link, OutFrame, packet, raw, poll, received, tick, ipv4_status,
  effective_mru, open_phase,
}
use zeronat.Ppp.Link.Sound.{LinkInv}
use zeronat.Ppp.Link.Invariant.{poll-LinkInv, received-LinkInv, tick-LinkInv}
use zeronat.Ppp.Ipcp.{status}
use zeronat.Ppp.Session.{
  send_echo_request, PppSession, Established, serialize, serialize_all, drive_poll, feed,
  feed_outcome, on_tick, established,
}

-- The bytes of a frame.
abbrev pub frame_bytes : OutFrame → List ℕ
frame_bytes (packet p) = render p
frame_bytes (raw bytes) = bytes

abbrev pub all_bytes : List OutFrame → List (List ℕ)
all_bytes [] = []
all_bytes (f ∷ fs) = frame_bytes f ∷ all_bytes fs

serialize-bytes : (f : OutFrame) → serialize f ≡ some (frame_bytes f)
unfolding serialize
serialize-bytes (packet p) =
    emit-render p (replicate (packet_len p) 0) (length-replicate (packet_len p) 0)
serialize-bytes (raw bytes) = refl

serialize_all-bytes : (fs : List OutFrame) → serialize_all fs ≡ some (all_bytes fs)
unfolding serialize_all
serialize_all-bytes [] = refl
serialize_all-bytes (f ∷ fs) = rw (serialize-bytes f) (rw (serialize_all-bytes fs) refl)

drive_poll-total :
    (s : PppSession)
    → drive_poll s
      ≡ some (record s { ppp = (poll s.ppp).0; out = s.out ++ all_bytes (poll s.ppp).1 })
unfolding drive_poll
drive_poll-total s = rw (serialize_all-bytes (poll s.ppp).1) refl

module _ (md5 : List ℕ → List ℕ) where
  abbrev fed_link : PppSession → List ℕ → Link
  fed_link s payload = (received md5 s.ppp payload).0

  -- Feeding any payload, well formed or not, returns: no emitter fails. The link has taken the
  -- payload and one `poll`, the replies and then what the poll sends are queued behind what
  -- was there, and a sound link stays sound.
  pub feed_total :
      (s : PppSession) (payload : List ℕ)
      → LinkInv s.ppp
      → let (l, sent, outcome) = received md5 s.ppp payload in
        let (l', polled) = poll l in
        (feed md5 s payload
          ≡ some (
            record s { ppp = l'; out = (s.out ++ all_bytes sent) ++ all_bytes polled },
            feed_outcome payload outcome,
          ))
        × LinkInv l'
  unfolding feed
  feed_total s payload h =
      let l = fed_link s payload in
      let s1 : PppSession = record s {
        ppp = l;
        out = s.out ++ all_bytes (received md5 s.ppp payload).1;
      } in
      (
        rw (serialize_all-bytes (received md5 s.ppp payload).1) (rw (drive_poll-total s1) refl),
        poll-LinkInv l (received-LinkInv md5 s.ppp payload h),
      )

-- A timer tick returns as well, and a sound link stays sound.
pub on_tick_total :
    (s : PppSession)
    → LinkInv s.ppp
    → let (l, sent) = tick s.ppp in
      let (l', polled) = poll l in
      (on_tick s
        ≡ some (record s { ppp = l'; out = (s.out ++ all_bytes sent) ++ all_bytes polled }))
      × LinkInv l'
unfolding on_tick
on_tick_total s h =
    let (l, sent) = tick s.ppp in
    let s1 : PppSession = record s { ppp = l; out = s.out ++ all_bytes sent } in
    (rw (serialize_all-bytes sent) (drive_poll-total s1), poll-LinkInv l (tick-LinkInv s.ppp h))

-- A session reports an address only in phase Open, with both addresses known and not zero, and
-- with an MRU that exceeds neither side's.
pub established_lem :
    (s : PppSession) (e : Established)
    → established s ≡ some e
    → (s.ppp.phase ≡ open_phase)
      × (s.ppp.ipv4cp.state ≡ opened)
      × (e.local_ip ≢ 0)
      × (e.peer_ip ≢ 0)
      × (e.mru ≤ s.ppp.lcp.proto.mru_local)
      × (e.mru ≤ s.ppp.lcp.proto.mru_remote)
unfolding established ipv4_status effective_mru status
established_lem s e h = ground arith

-- The Echo-Request of a session.
abbrev pub echo_packet : PppSession → Packet
echo_packet s =
    fsm_echo_request lcp_protocol s.ppp.lcp ((s.echo_id + 1) % 256) s.ppp.lcp.proto.magic_local

queue_frame :
    (s : PppSession) (up : Bool)
    → link_up s.ppp.lcp ≡ up
    → send_echo_request s
      ≡ some (
        record s {
          echo_id = (s.echo_id + 1) % 256;
          out = if up then s.out ++ (render (echo_packet s) ∷ []) else s.out;
        },
        up,
      )
unfolding send_echo_request lcp_echo_request
queue_frame s true e = rw e (rw (serialize-bytes (packet (echo_packet s))) refl)
queue_frame s false e = rw e refl

-- An Echo-Request takes the next identifier, and it is queued with our magic exactly when the
-- link is up; no emitter fails.
pub send_echo_request_lem :
    (s : PppSession)
    → send_echo_request s
      ≡ some (
        record s {
          echo_id = (s.echo_id + 1) % 256;
          out = if link_up s.ppp.lcp then s.out ++ (render (echo_packet s) ∷ []) else s.out;
        },
        link_up s.ppp.lcp,
      )
send_echo_request_lem s = queue_frame s (link_up s.ppp.lcp) refl
