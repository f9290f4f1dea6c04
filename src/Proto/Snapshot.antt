-- ===== src/Proto/Snapshot.antt =====
-- src/proto.rs: the entries of a snapshot, written and read.
use zeronat.Base.{ℕ, List}
use zeronat.Proto.Types.{
  source_byte, settled_path_byte, Listener, ClientEntry, RouteEntry, BridgeEntry, PairEntry,
  SnapshotBody,
}
use zeronat.Proto.Writer.{
  bool_u8, put_u8, put_u32, put_u64, put_bytes, put_str, put_list, put_target, put_fwd_entries,
  tagged,
}
use zeronat.Proto.Reader.{
  Reader, ◌>>=◌, ◌>>◌, ret, need, at_end, take_bytes, get_u8, get_u16, get_u32, get_u64, flag,
  one_of, get_proto, settled_path,
}
use zeronat.Proto.Parts.{array_or_0, get_str, get_ip, get_source, take_fwd_entries, want, read_list}

unfoldable pub put_listener : List ℕ → Listener → List ℕ
put_listener b l = put_u8 (put_target b l.bind_ip l.proto l.port) (source_byte l.source)

unfoldable pub put_client : List ℕ → ClientEntry → List ℕ
put_client b c = put_fwd_entries (put_u8 (put_str b c.client_id) c.transport) c.fwd

unfoldable pub put_route : List ℕ → RouteEntry → List ℕ
put_route b e =
    let b = put_str (put_target b e.bind_ip e.proto e.port) e.client_id in
    put_u8 (put_u8 b e.state) (source_byte e.source)

unfoldable pub put_counters : List ℕ → BridgeEntry → List ℕ
put_counters b e =
    let b = put_u64 (put_u64 (put_u64 (put_u64 b e.rx_bytes) e.rx_frames) e.tx_bytes) e.tx_frames in
    put_u32 (put_u32 b e.uptime_secs) e.idle_secs

unfoldable pub put_bridge : List ℕ → BridgeEntry → List ℕ
put_bridge b e =
    let b = put_u8 (put_u8 (put_str b e.label) (bool_u8 e.named)) e.transport in
    put_counters (put_list put_bytes (put_str b e.peer) e.macs) e

unfoldable pub put_pair : List ℕ → PairEntry → List ℕ
put_pair b p =
    put_u8 (put_u8 (put_str (put_str b p.consumer_id) p.provider_id) p.want)
      (settled_path_byte p.path)

-- The arm of `encode` for a snapshot.
unfoldable pub put_snapshot : SnapshotBody → List ℕ
put_snapshot snap =
    let b = put_str (put_u8 (tagged 7) snap.version) snap.server_id in
    let b = put_list put_listener b snap.listeners in
    let b = put_list put_client b snap.clients in
    let b = put_list put_route b snap.routes in
    let b = put_list put_bridge b snap.bridge_clients in put_list put_pair b snap.pairs

unfoldable pub get_listener : Reader Listener
get_listener = do
  bind_ip ← get_ip
  need 4 "truncated listener"
  proto ← get_proto
  port ← get_u16
  source ← get_source
  ret (record { bind_ip = bind_ip; proto = proto; port = port; source = source })

abbrev pub decode_listeners : Reader (List Listener)
decode_listeners = read_list "truncated listener count" get_listener

unfoldable pub get_client : Reader ClientEntry
get_client = do
  client_id ← get_str
  need 1 "truncated client transport"
  transport ← one_of 1 2 "unknown transport"
  fwd ← take_fwd_entries
  ret (record { client_id = client_id; transport = transport; fwd = fwd })

abbrev pub decode_clients : Reader (List ClientEntry)
decode_clients = read_list "truncated client count" get_client

unfoldable pub get_route : Reader RouteEntry
get_route = do
  bind_ip ← get_ip
  need 3 "truncated route"
  proto ← get_proto
  port ← get_u16
  client_id ← get_str
  need 2 "truncated route state"
  state ← one_of 0 1 "unknown route state"
  source ← get_source
  ret (record {
    bind_ip = bind_ip;
    proto = proto;
    port = port;
    client_id = client_id;
    state = state;
    source = source;
  })

abbrev pub decode_routes : Reader (List RouteEntry)
decode_routes = read_list "truncated route count" get_route

unfoldable pub get_mac : Reader (List ℕ)
get_mac = do need 6 "truncated bridge mac"; m ← take_bytes 6; ret (array_or_0 6 m)

unfoldable pub get_bridge : Reader BridgeEntry
get_bridge = do
  label ← get_str
  need 1 "truncated bridge named flag"
  named ← flag "unknown bridge named"
  need 1 "truncated bridge transport"
  transport ← one_of 1 2 "unknown transport"
  peer ← get_str
  macs ← read_list "truncated bridge mac count" get_mac
  need 40 "truncated bridge counters"
  rx_bytes ← get_u64
  rx_frames ← get_u64
  tx_bytes ← get_u64
  tx_frames ← get_u64
  uptime_secs ← get_u32
  idle_secs ← get_u32
  ret (record {
    label = label;
    named = named;
    transport = transport;
    peer = peer;
    macs = macs;
    rx_bytes = rx_bytes;
    rx_frames = rx_frames;
    tx_bytes = tx_bytes;
    tx_frames = tx_frames;
    uptime_secs = uptime_secs;
    idle_secs = idle_secs;
  })

abbrev pub decode_bridge_clients : Reader (List BridgeEntry)
decode_bridge_clients = read_list "truncated bridge count" get_bridge

unfoldable pub get_pair : Reader PairEntry
get_pair = do
  consumer_id ← get_str
  provider_id ← get_str
  need 2 "truncated pair capability"
  bit ← want
  path ← settled_path
  ret (record { consumer_id = consumer_id; provider_id = provider_id; want = bit; path = path })

abbrev pub decode_pairs : Reader (List PairEntry)
decode_pairs =
    read_list "truncated pair count: the admin reader and the server are different versions"
      get_pair

-- The arm of `decode` for a snapshot.
unfoldable pub get_snapshot : Reader SnapshotBody
get_snapshot = do
  need 1 "truncated snapshot"
  version ← get_u8
  server_id ← get_str
  listeners ← decode_listeners
  clients ← decode_clients
  routes ← decode_routes
  bridge_clients ← decode_bridge_clients
  pairs ← decode_pairs
  at_end "trailing bytes in snapshot: the admin reader and the server are different versions"
  ret (record {
    version = version;
    server_id = server_id;
    listeners = listeners;
    clients = clients;
    routes = routes;
    bridge_clients = bridge_clients;
    pairs = pairs;
  })
