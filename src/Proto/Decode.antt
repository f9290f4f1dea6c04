-- ===== src/Proto/Decode.antt =====
-- src/proto.rs: `Msg::decode`. An arm whose length guard does not hold falls to the last arm,
-- `read_malformed`.
use zeronat.Base.{ℕ, ◌⊎◌, inl, inr, Option, none, some, List, [], ◌∷◌, ◌==◌, if◌then◌else◌, length}
use zeronat.Proto.Msg.{
  Msg, ping, pong, client_hello_refuse, fwd_options_ack, add_listener, remove_listener, clear_route,
  add_client, set_client_secret, remove_client, disconnect_client,
}
use zeronat.Proto.Reader.{Error, malformed, Rd, Reader, ◌>>=◌, ◌>>◌, ret, fail, at_end}
use zeronat.Proto.Parts.{get_sockaddr}
use zeronat.Proto.Types.{SocketAddr}
use zeronat.Proto.Writer.{put_sockaddr}
use zeronat.Proto.Arms.{
  read_admin_hello, read_client_hello, read_client_hello_ack, read_client_id, read_credential,
  read_data, read_fwd_options, read_mutation_result, read_open, read_open_proxy, read_peer_announce,
  read_peer_announce_ack, read_peer_challenge, read_peer_connect, read_peer_info, read_peer_path,
  read_peer_probe, read_peer_proof, read_peer_relay_open, read_peer_result, read_refuse,
  read_set_route, read_snapshot, read_target,
}

unfoldable pub read_malformed : ℕ → Reader Msg
read_malformed len = do fail (malformed len); ret ping

-- `Some(tag) if b.len() == n => ...`
unfoldable pub when_len : ℕ → ℕ → Reader Msg → Reader Msg
when_len n len arm = if len == n then arm else read_malformed len

-- The arms for clients and streams.
unfoldable pub read_client_msg : ℕ → ℕ → Reader Msg
read_client_msg tag len =
    if tag == 1
    then ret ping
    else if tag == 2
    then when_len 44 len read_open
    else if tag == 3
    then when_len 42 len read_data
    else if tag == 4
    then ret pong
    else if tag == 5
    then read_client_hello
    else if tag == 13
    then read_fwd_options
    else if tag == 14
    then when_len 1 len (ret fwd_options_ack)
    else if tag == 15
    then read_open_proxy
    else if tag == 24
    then read_client_hello_ack
    else if tag == 28
    then when_len 1 len (ret client_hello_refuse)
    else read_malformed len

-- The arms for an admin session.
unfoldable pub read_admin_msg : ℕ → ℕ → Reader Msg
read_admin_msg tag len =
    if tag == 6
    then when_len 3 len read_admin_hello
    else if tag == 7
    then read_snapshot
    else if tag == 8
    then when_len 8 len (read_target add_listener)
    else if tag == 9
    then when_len 8 len (read_target remove_listener)
    else if tag == 10
    then read_set_route
    else if tag == 11
    then when_len 8 len (read_target clear_route)
    else if tag == 12
    then read_mutation_result
    else if tag == 29
    then read_credential add_client
    else if tag == 30
    then read_credential set_client_secret
    else if tag == 31
    then read_client_id "trailing bytes in remove client" remove_client
    else if tag == 32
    then read_client_id "trailing bytes in disconnect client" disconnect_client
    else read_client_msg tag len

-- All arms, those for peers first.
unfoldable pub read_msg : ℕ → ℕ → Reader Msg
read_msg tag len =
    if tag == 16
    then when_len 34 len read_peer_announce
    else if tag == 17
    then read_peer_announce_ack
    else if tag == 18
    then when_len 34 len read_peer_connect
    else if tag == 19
    then when_len 43 len read_peer_result
    else if tag == 20
    then when_len 114 len read_peer_probe
    else if tag == 21
    then read_peer_info
    else if tag == 22
    then when_len 49 len read_peer_relay_open
    else if tag == 23
    then when_len 10 len read_peer_path
    else if tag == 25
    then when_len 65 len read_peer_challenge
    else if tag == 26
    then when_len 33 len read_peer_proof
    else if tag == 27
    then when_len 2 len read_refuse
    else read_admin_msg tag len

-- `r.end()?; Ok(value)`
abbrev settle : {A : Type 0} → Option Error → A → Error ⊎ A
settle none a = inr a
settle (some e) a = inl e

abbrev pub finish : {A : Type 0} → A × Rd → Error ⊎ A
finish (a, r) = settle r.err a

unfoldable pub decode : List ℕ → Error ⊎ Msg
decode [] = finish (read_malformed 0 (record { rest = []; err = none }))
decode (tag ∷ body) =
    finish (read_msg tag (length (tag ∷ body)) (record { rest = body; err = none }))

unfoldable pub encode_sockaddr : SocketAddr → List ℕ
encode_sockaddr a = put_sockaddr [] a

unfoldable pub decode_sockaddr : List ℕ → Error ⊎ SocketAddr
decode_sockaddr b = finish (
    (do a ← get_sockaddr; at_end "trailing bytes in socket address"; ret a)
      (record { rest = b; err = none }))
