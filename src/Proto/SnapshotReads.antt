-- ===== src/Proto/SnapshotReads.antt =====
-- The entries of a snapshot: the values that the encoding carries, their bytes, and that writers
-- and readers agree on them.
use zeronat.Base.{ℕ, ◌≡◌, ◌⊎◌, refl, ◌∙◌, List, [], ◌∷◌, ◌++◌, be16, be32, arith, append_assoc}
use zeronat.Proto.Types.{
  source_byte, settled_path_byte, Listener, ClientEntry, RouteEntry, BridgeEntry, PairEntry,
  proto_byte,
}
use zeronat.Proto.Writer.{
  be64, bool_u8, put_bytes, put_str, put_u8, put_u32, put_u64, put_target, put_fwd_entries,
  put_fwd_entry,
}
use zeronat.Proto.Encoded.{
  IsU16, IsU32, IsU64, IsArray, IsStr, IsWant, IsList, IsFwd, str_bytes, list_bytes, fwd_bytes,
  put_str-bytes, put_list-bytes, put_fwd_entry-bytes,
}
use zeronat.Proto.Snapshot.{
  put_listener, put_client, put_route, put_counters, put_bridge, put_pair, get_listener, get_client,
  get_route, get_mac, get_bridge, get_pair,
}
use zeronat.Proto.Reads.{
  Reads, Reads-ret, Reads-bind, Reads-need, take_bytes-Reads, get_u16-Reads, get_u32-Reads,
  get_u64-Reads, flag-Reads, one_of-Reads, get_proto-Reads, settled_path-Reads,
}
use zeronat.Proto.PartReads.{
  Reads-last, get_str-Reads, get_ip-Reads, get_source-Reads, take_fwd_entries-Reads, want-Reads,
  read_list-Reads, array_kept,
}

abbrev pub IsListener : Listener → Type 0
IsListener l = IsU32 l.bind_ip × IsU16 l.port

abbrev pub IsClient : ClientEntry → Type 0
IsClient c = IsStr c.client_id × ((c.transport ≡ 1) ⊎ (c.transport ≡ 2)) × IsList IsFwd c.fwd

abbrev pub IsRoute : RouteEntry → Type 0
IsRoute e = IsU32 e.bind_ip × IsU16 e.port × IsStr e.client_id × ((e.state ≡ 0) ⊎ (e.state ≡ 1))

abbrev pub HasCounters : BridgeEntry → Type 0
HasCounters e =
    IsU64 e.rx_bytes
    × IsU64 e.rx_frames
    × IsU64 e.tx_bytes
    × IsU64 e.tx_frames
    × IsU32 e.uptime_secs
    × IsU32 e.idle_secs

abbrev pub IsBridge : BridgeEntry → Type 0
IsBridge e =
    IsStr e.label
    × ((e.transport ≡ 1) ⊎ (e.transport ≡ 2))
    × IsStr e.peer
    × IsList (IsArray 6) e.macs
    × HasCounters e

abbrev pub IsPair : PairEntry → Type 0
IsPair p = IsStr p.consumer_id × IsStr p.provider_id × IsWant p.want

abbrev pub listener_bytes : Listener → List ℕ
listener_bytes l =
    be32 l.bind_ip ++ ((proto_byte l.proto ∷ []) ++ (be16 l.port ++ (source_byte l.source ∷ [])))

abbrev pub client_bytes : ClientEntry → List ℕ
client_bytes c = str_bytes c.client_id ++ ((c.transport ∷ []) ++ list_bytes fwd_bytes c.fwd)

abbrev pub route_bytes : RouteEntry → List ℕ
route_bytes e =
    be32 e.bind_ip
    ++ ((proto_byte e.proto ∷ [])
        ++ (be16 e.port
            ++ (str_bytes e.client_id ++ ((e.state ∷ []) ++ (source_byte e.source ∷ [])))))

abbrev pub counter_bytes : BridgeEntry → List ℕ
counter_bytes e =
    be64 e.rx_bytes
    ++ (be64 e.rx_frames
        ++ (be64 e.tx_bytes ++ (be64 e.tx_frames ++ (be32 e.uptime_secs ++ be32 e.idle_secs))))

abbrev pub mac_bytes : List ℕ → List ℕ
mac_bytes m = m

abbrev pub bridge_bytes : BridgeEntry → List ℕ
bridge_bytes e =
    str_bytes e.label
    ++ ((bool_u8 e.named ∷ [])
        ++ ((e.transport ∷ [])
            ++ (str_bytes e.peer ++ (list_bytes mac_bytes e.macs ++ counter_bytes e))))

abbrev pub pair_bytes : PairEntry → List ℕ
pair_bytes p =
    str_bytes p.consumer_id
    ++ (str_bytes p.provider_id ++ ((p.want ∷ []) ++ (settled_path_byte p.path ∷ [])))

pub put_listener-bytes : (b : List ℕ) (l : Listener) → put_listener b l ≡ b ++ listener_bytes l
unfolding put_listener put_u8 put_target
put_listener-bytes b l = simp append_assoc

pub put_client-bytes :
    (b : List ℕ) (c : ClientEntry) → IsClient c → put_client b c ≡ b ++ client_bytes c
unfolding put_client put_fwd_entries put_u8
put_client-bytes b c ((short, u), t, f) =
    put_list-bytes IsFwd put_fwd_entry fwd_bytes (λ b e v. put_fwd_entry-bytes b e)
      (put_str b c.client_id ++ (c.transport ∷ [])) c.fwd f
    ∙ rw (put_str-bytes b c.client_id short) (simp append_assoc)

pub put_route-bytes : (b : List ℕ) (e : RouteEntry) → IsRoute e → put_route b e ≡ b ++ route_bytes e
unfolding put_route put_u8 put_target
put_route-bytes b e (i, p, (short, u), s) =
    rw (put_str-bytes (put_target b e.bind_ip e.proto e.port) e.client_id short) (simp append_assoc)

pub put_pair-bytes : (b : List ℕ) (p : PairEntry) → IsPair p → put_pair b p ≡ b ++ pair_bytes p
unfolding put_pair put_u8
put_pair-bytes b p ((short, u), (short', u'), w) =
    rw (put_str-bytes (put_str b p.consumer_id) p.provider_id short')
      (rw (put_str-bytes b p.consumer_id short) (simp append_assoc))

pub put_bridge-bytes :
    (b : List ℕ) (e : BridgeEntry) → IsBridge e → put_bridge b e ≡ b ++ bridge_bytes e
unfolding put_bridge put_counters put_bytes put_u8 put_u32 put_u64
put_bridge-bytes b e ((short, u), t, (short', u'), m, c) =
    rw
      (put_list-bytes (IsArray 6) put_bytes mac_bytes (λ b x v. refl)
        (put_str ((put_str b e.label ++ (bool_u8 e.named ∷ [])) ++ (e.transport ∷ [])) e.peer)
        e.macs m)
      (rw
        (put_str-bytes ((put_str b e.label ++ (bool_u8 e.named ∷ [])) ++ (e.transport ∷ [])) e.peer
          short')
        (rw (put_str-bytes b e.label short) (simp append_assoc)))

pub get_listener-Reads : (l : Listener) → IsListener l → Reads get_listener (listener_bytes l) l
unfolding get_listener
get_listener-Reads l (i, p) = Reads-bind _ (get_ip-Reads l.bind_ip i) (
    Reads-need _ (omega arith) (
      Reads-bind _ (get_proto-Reads l.proto) (
        Reads-bind _ (get_u16-Reads l.port p)
          (Reads-last _ (get_source-Reads l.source) (Reads-ret l)))))

pub get_client-Reads : (c : ClientEntry) → IsClient c → Reads get_client (client_bytes c) c
unfolding get_client
get_client-Reads c (s, t, f) = Reads-bind _ (get_str-Reads c.client_id s) (
    Reads-need _ (omega arith) (
      Reads-bind _ (one_of-Reads _ c.transport t)
        (Reads-last _ (take_fwd_entries-Reads c.fwd f) (Reads-ret c))))

pub get_route-Reads : (e : RouteEntry) → IsRoute e → Reads get_route (route_bytes e) e
unfolding get_route
get_route-Reads e (i, p, s, t) = Reads-bind _ (get_ip-Reads e.bind_ip i) (
    Reads-need _ (omega arith) (
      Reads-bind _ (get_proto-Reads e.proto) (
        Reads-bind _ (get_u16-Reads e.port p) (
          Reads-bind _ (get_str-Reads e.client_id s) (
            Reads-need _ (omega arith) (
              Reads-bind _ (one_of-Reads _ e.state t)
                (Reads-last _ (get_source-Reads e.source) (Reads-ret e))))))))

get_mac-Reads : (m : List ℕ) → IsArray 6 m → Reads get_mac m m
unfolding get_mac
get_mac-Reads m h =
    Reads-need _ (omega arith)
      (Reads-last _ (take_bytes-Reads m h) (rw (array_kept 6 m h) (Reads-ret m)))

pub get_bridge-Reads : (e : BridgeEntry) → IsBridge e → Reads get_bridge (bridge_bytes e) e
unfolding get_bridge
get_bridge-Reads e (l, t, p, m, (c1, c2, c3, c4, c5, c6)) = Reads-bind _ (get_str-Reads e.label l) (
    Reads-need _ (omega arith) (
      Reads-bind _ (flag-Reads _ e.named) (
        Reads-need _ (omega arith) (
          Reads-bind _ (one_of-Reads _ e.transport t) (
            Reads-bind _ (get_str-Reads e.peer p) (
              Reads-bind _ (read_list-Reads (IsArray 6) get_mac mac_bytes _ get_mac-Reads e.macs m)
                (Reads-need _ (omega arith) (
                  Reads-bind _ (get_u64-Reads e.rx_bytes c1) (
                    Reads-bind _ (get_u64-Reads e.rx_frames c2) (
                      Reads-bind _ (get_u64-Reads e.tx_bytes c3) (
                        Reads-bind _ (get_u64-Reads e.tx_frames c4) (
                          Reads-bind _ (get_u32-Reads e.uptime_secs c5)
                            (Reads-last _ (get_u32-Reads e.idle_secs c6) (Reads-ret e))))))))))))))

pub get_pair-Reads : (p : PairEntry) → IsPair p → Reads get_pair (pair_bytes p) p
unfolding get_pair
get_pair-Reads p (c, v, w) = Reads-bind _ (get_str-Reads p.consumer_id c) (
    Reads-bind _ (get_str-Reads p.provider_id v) (
      Reads-need _ (omega arith) (
        Reads-bind _ (want-Reads p.want w)
          (Reads-last _ (settled_path-Reads p.path) (Reads-ret p)))))
