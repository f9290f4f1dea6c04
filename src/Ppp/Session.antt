-- ===== src/Ppp/Session.antt =====
-- src/pppoe/engine.rs: the PPP session without input and output. Its queue holds the payloads to
-- send, oldest first.
pub mod Laws
mod Tests
use zeronat.Base.{
  ℕ, ◌+◌, ◌%◌, Bool, true, false, ◌||◌, Option, none, some, List, [], ◌∷◌, ◌++◌, ltb, if◌then◌else◌,
  length, drop, ◌>>=◌, replicate,
}
use zeronat.Ppp.Wire.{packet_len, emit}
use zeronat.Ppp.Ipcp.{Ipv4Status}
use zeronat.Ppp.Link.{
  Link, Phase, open_phase, OutFrame, packet, raw, RxOutcome, consumed, ip_packet, effective_mru,
  ipv4_status, open_link, tick, poll, received, lcp_echo_request, new as new_link,
  set_request_dns as link_request_dns, take_echo_reply_seen as link_take_echo_reply_seen,
}

pub data FeedOutcome : Type 0 where
  fed : FeedOutcome
  ip : List ℕ → FeedOutcome
  truncated : FeedOutcome

pub record PppConfig : Type 0 where
  pub username : List ℕ
  pub password : List ℕ
  pub mru : ℕ
  pub magic : ℕ
  pub request_dns : Bool

pub record Established : Type 0 where
  pub local_ip : ℕ
  pub peer_ip : ℕ
  pub dns_1 : Option ℕ
  pub dns_2 : Option ℕ
  pub mru : ℕ

pub record PppSession : Type 0 where
  pub ppp : Link
  pub out : List (List ℕ)
  pub echo_id : ℕ  -- u8

-- `none` is a panic of the emitter.
unfoldable pub serialize : OutFrame → Option (List ℕ)
serialize (packet p) = emit p (replicate (packet_len p) 0)
serialize (raw bytes) = some bytes

unfoldable pub serialize_all : List OutFrame → Option (List (List ℕ))
serialize_all [] = some []
serialize_all (f ∷ fs) = do bytes ← serialize f; rest ← serialize_all fs; some (bytes ∷ rest)

-- `none` is the `CredentialTooLong` error.
unfoldable pub new : PppConfig → Option PppSession
new cfg =
    if ltb 255 (length cfg.username) || ltb 255 (length cfg.password)
    then none
    else some (record {
      ppp = link_request_dns (new_link cfg.username cfg.password cfg.mru cfg.magic) cfg.request_dns;
      out = [];
      echo_id = 0;
    })

unfoldable pub set_request_dns : PppSession → Bool → PppSession
set_request_dns s on = record s { ppp = link_request_dns s.ppp on }

unfoldable pub take_echo_reply_seen : PppSession → PppSession × Bool
take_echo_reply_seen s =
    let (ppp', seen) = link_take_echo_reply_seen s.ppp in (record s { ppp = ppp' }, seen)

unfoldable pub drive_poll : PppSession → Option PppSession
drive_poll s = do
  let (ppp', sent) = poll s.ppp
  produced ← serialize_all sent
  some (record s { ppp = ppp'; out = s.out ++ produced })

-- The outer `none` is a panic, the inner one the `InvalidState` error.
unfoldable pub open_session : PppSession → Option (Option PppSession)
open_session s = opened (open_link s.ppp)
  where
    opened : Option Link → Option (Option PppSession)
    opened none = some none
    opened (some ppp') = do s' ← drive_poll (record s { ppp = ppp' }); some (some s')

abbrev feed_outcome : List ℕ → RxOutcome → FeedOutcome
feed_outcome payload RxOutcome.truncated = FeedOutcome.truncated
feed_outcome payload (ip_packet from to) = ip (drop from payload)
feed_outcome payload consumed = fed

unfoldable pub feed : (List ℕ → List ℕ) → PppSession → List ℕ → Option (PppSession × FeedOutcome)
feed md5 s payload = do
  let (ppp', sent, outcome) = received md5 s.ppp payload
  produced ← serialize_all sent
  s' ← drive_poll (record s { ppp = ppp'; out = s.out ++ produced })
  some (s', feed_outcome payload outcome)

unfoldable pub on_tick : PppSession → Option PppSession
on_tick s = do
  let (ppp', sent) = tick s.ppp
  produced ← serialize_all sent
  drive_poll (record s { ppp = ppp'; out = s.out ++ produced })

unfoldable pub poll_transmit : PppSession → PppSession × Option (List ℕ)
poll_transmit s = from_queue s.out
  where
    from_queue : List (List ℕ) → PppSession × Option (List ℕ)
    from_queue [] = (s, none)
    from_queue (bytes ∷ rest) = (record s { out = rest }, some bytes)

abbrev is_open : Phase → Bool
is_open open_phase = true
is_open _ = false

unfoldable pub established : PppSession → Option Established
established s = if is_open s.ppp.phase then address_of (ipv4_status s.ppp) else none
  where
    address_of : Option Ipv4Status → Option Established
    address_of status = do
      ipv4 ← status
      local_ip ← ipv4.address
      peer_ip ← ipv4.peer_address
      some (record {
        local_ip = local_ip;
        peer_ip = peer_ip;
        dns_1 = ipv4.dns_server_1;
        dns_2 = ipv4.dns_server_2;
        mru = effective_mru s.ppp;
      })

unfoldable pub send_echo_request : PppSession → Option (PppSession × Bool)
send_echo_request s = queue (lcp_echo_request s.ppp ((s.echo_id + 1) % 256))
  where
    queue : Option OutFrame → Option (PppSession × Bool)
    queue none = some (record s { echo_id = (s.echo_id + 1) % 256 }, false)
    queue (some frame) = do
      bytes ← serialize frame
      some (record s { echo_id = (s.echo_id + 1) % 256; out = s.out ++ (bytes ∷ []) }, true)
