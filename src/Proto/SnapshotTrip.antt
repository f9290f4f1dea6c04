-- ===== src/Proto/SnapshotTrip.antt =====
-- A snapshot is decoded from what it is encoded to.
use zeronat.Base.{ℕ, ◌≡◌, List, [], ◌∷◌, ◌++◌, arith, append_assoc, inr}
use zeronat.Proto.Types.{SnapshotBody}
use zeronat.Proto.Writer.{put_str, put_u8, tagged}
use zeronat.Proto.Encoded.{str_bytes, list_bytes, put_str-bytes, put_list-bytes}
use zeronat.Proto.Snapshot.{
  put_listener, put_client, put_route, put_bridge, put_pair, get_listener, get_client, get_route,
  get_bridge, get_pair, put_snapshot, get_snapshot,
}
use zeronat.Proto.Reads.{get_u8-Reads}
use zeronat.Proto.PartReads.{get_str-Reads, read_list-Reads}
use zeronat.Proto.Valid.{IsSnapshot}
use zeronat.Proto.SnapshotReads.{
  listener_bytes, client_bytes, route_bytes, bridge_bytes, pair_bytes, IsListener,
  put_listener-bytes, get_listener-Reads, IsClient, put_client-bytes, get_client-Reads, IsRoute,
  put_route-bytes, get_route-Reads, IsBridge, put_bridge-bytes, get_bridge-Reads, IsPair,
  put_pair-bytes, get_pair-Reads,
}
use zeronat.Proto.Msg.{encode, snapshot}
use zeronat.Proto.Ends.{
  Ends, Ends-need, Ends-bind, decode-Ends, Ends-map, Ends-ret, Ends-last, Ends-at_end,
}
use zeronat.Proto.Arms.{read_snapshot}
use zeronat.Proto.Decode.{read_msg, read_admin_msg, decode}

abbrev list_of : SnapshotBody → List ℕ
list_of s =
    list_bytes listener_bytes s.listeners
    ++ (list_bytes client_bytes s.clients
        ++ (list_bytes route_bytes s.routes
            ++ (list_bytes bridge_bytes s.bridge_clients ++ list_bytes pair_bytes s.pairs)))

abbrev snapshot_bytes : SnapshotBody → List ℕ
snapshot_bytes s = (s.version ∷ []) ++ (str_bytes s.server_id ++ list_of s)

put_snapshot-bytes : (s : SnapshotBody) → IsSnapshot s → put_snapshot s ≡ 7 ∷ snapshot_bytes s
unfolding put_snapshot tagged put_u8
put_snapshot-bytes s (v, l, c, r, b, p) =
    let b0 = put_str (7 ∷ s.version ∷ []) s.server_id in
    let b1 = b0 ++ list_bytes listener_bytes s.listeners in
    let b2 = b1 ++ list_bytes client_bytes s.clients in
    let b3 = b2 ++ list_bytes route_bytes s.routes in
    let b4 = b3 ++ list_bytes bridge_bytes s.bridge_clients in
    rw
      (put_list-bytes IsListener put_listener listener_bytes (λ b x v. put_listener-bytes b x) b0
        s.listeners l)
      (rw (put_list-bytes IsClient put_client client_bytes put_client-bytes b1 s.clients c) (
        rw (put_list-bytes IsRoute put_route route_bytes put_route-bytes b2 s.routes r) (
          rw
            (put_list-bytes IsBridge put_bridge bridge_bytes put_bridge-bytes b3 s.bridge_clients b)
            (rw (put_list-bytes IsPair put_pair pair_bytes put_pair-bytes b4 s.pairs p)
              (rw (put_str-bytes (7 ∷ s.version ∷ []) s.server_id v.0) (simp append_assoc))))))

get_snapshot-Ends : (s : SnapshotBody) → IsSnapshot s → Ends get_snapshot (snapshot_bytes s) s
unfolding get_snapshot
get_snapshot-Ends s (v, l, c, r, b, p) = Ends-need _ (omega arith) (
    Ends-bind _ (get_u8-Reads s.version) (
      Ends-bind _ (get_str-Reads s.server_id v) (
        Ends-bind _
          (read_list-Reads IsListener get_listener listener_bytes _ get_listener-Reads s.listeners
            l)
          (Ends-bind _
            (read_list-Reads IsClient get_client client_bytes _ get_client-Reads s.clients c)
            (Ends-bind _
              (read_list-Reads IsRoute get_route route_bytes _ get_route-Reads s.routes r)
              (Ends-bind _
                (read_list-Reads IsBridge get_bridge bridge_bytes _ get_bridge-Reads
                  s.bridge_clients b)
                (Ends-last _ (read_list-Reads IsPair get_pair pair_bytes _ get_pair-Reads s.pairs p)
                  (Ends-at_end _ (Ends-ret s)))))))))

pub snapshot-decoded :
    (s : SnapshotBody) → IsSnapshot s → decode (encode (snapshot s)) ≡ inr (snapshot s)
unfolding encode read_msg read_admin_msg read_snapshot
snapshot-decoded s h =
    rw (put_snapshot-bytes s h)
      (decode-Ends 7 (Ends-map _ (get_snapshot-Ends s h) (Ends-ret (snapshot s))))
