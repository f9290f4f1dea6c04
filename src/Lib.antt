-- ===== src/Lib.antt =====
-- zeronat: a reverse tunnel whose server, clients and peers speak a control protocol over encrypted
-- connections, with a PPPoE client that dials the uplink. This library models the parts below.
--
-- The control protocol, src/proto.rs. `Proto.Types` has the enums and records, `Proto.Writer` the
-- functions that append to a body, `Proto.Reader` the cursor `Rd`, `Proto.Parts` and
-- `Proto.Snapshot` the readers of parts, `Proto.Msg` the messages with `Msg::encode`, and
-- `Proto.Arms` and `Proto.Decode` have `Msg::decode`, one `read_*` for an arm. A string is the
-- list of its UTF-8 bytes (`Proto.Utf8` is the check of `str::from_utf8`), an integer a natural
-- number, a fixed array a list. The cursor is the rest of the body and the first failure; a
-- failure is a value. `Proto.Encoded`, `Proto.Reads`, `Proto.PartReads`, `Proto.SnapshotReads`,
-- `Proto.Ends` and `Proto.ArmReads` relate writers and readers over the bytes of each part, and
-- `Proto.Valid` says which messages fit their encoding. `Proto.ClientTrip`, `Proto.AdminTrip`,
-- `Proto.PeerTrip`, `Proto.SnapshotTrip` and `Proto.RoundTrip` are the round trip.
--
-- The PPP stack, src/pppoe/ppp, src/pppoe/auth.rs and src/pppoe/engine.rs. `Ppp.Wire` is wire.rs;
-- `Ppp.Options` is `parse_options`, and `Ppp.Fsm` the rest of option_fsm.rs: `OptionFsm` is a
-- record, a method that mutates returns it, and the packets handed to `tx` are a list. The trait
-- `Protocol` is a record of functions, with `Ppp.Lcp` (lcp.rs) and `Ppp.Ipcp` (ipv4cp.rs) as its
-- two instances. `Ppp.Pap` is pap.rs, `Ppp.Chap` auth.rs, with the digest of the `md-5` crate as a
-- parameter. `Ppp.Link` is the driver of mod.rs, which owns one automaton of each kind, and
-- `Ppp.Session` the engine around it, whose queue holds serialized payloads. `Ppp.Negotiation` has
-- the theorems about the automaton by subject; its `Table` is the transition table. Where the source names an operation `open`, the
-- model says `open_fsm`, `open_pap`, `open_link` and `open_session`.
--
-- PPPoE, in `Pppoe`. `Pppoe.Discovery` is src/pppoe/discovery.rs: `Tags` the walk over the tags,
-- `Packets` the frames it builds and parses, and `Machine` the driver with `start`, `on_frame` and
-- `on_tick`, from the first PADI to a session; `RoundTrip`, `Established` and `Retry` are its
-- proofs by subject. `Pppoe.Frame` is src/pppoe/session.rs, whose frames carry the payloads of a
-- PPP session, and `Pppoe.Redial` is src/pppoe/redial.rs, which paces the dials of a session
-- that does not last.
--
-- Hashing, src/hash.rs. `Hash.Compress` is the compression function of BLAKE2s, `Hash.Blake2s` its
-- buffer with `update` and `finalize`, HMAC and the comparison of digests. `Hash.Stream` relates the
-- buffer to the bytes taken one by one, `Hash.Digest` has lengths, and `Hash.Hmac` a reference HMAC.
--
-- Encrypted connections, src/noise.rs. `Noise.Primitives` is a record of what the crates
-- `x25519-dalek` and `chacha20poly1305` give, and `PrimitiveLaws` is what the code relies on: the
-- shared secret is the same from both sides, a sealed text opens, and the lengths.
-- `Noise.Symmetric` is the symmetric state, `Noise.Xx` the handshake of two static keys, `Noise.Nn`
-- the one under a shared key, `Noise.Preface` the bytes in front of it, and `Noise.Claim` the claims
-- of a client; an awaited message is an argument of the step that reads it. `Noise.Window` and
-- `Noise.Transport` are the datagram transport with its replay window, `Noise.Stream` the two halves
-- of an encrypted stream, and `Noise.Announce` the proof of a peer that announces itself.
-- `Noise.Datagram` is src/dgram.rs, which sends datagrams through that transport, with
-- `Noise.DatagramLaws` and `Noise.DatagramRuns` about it.
-- `Noise.Exchange` runs a whole handshake on `Noise.Agreement`; `Noise.Replay`,
-- `Noise.Refinement` and `Noise.Delivery` are about the datagrams, the first with the list of accepted
-- nonces that a window stands for; `Noise.Frames`, `Noise.Resume`, `Noise.Framing` and
-- `Noise.Sending` are about the stream, whose source is a list of chunks.
--
-- Admission, src/admission.rs and src/proxyproto.rs. `Admission.Cookies` is the jar of the server,
-- over the hash, and `Admission.ProxyHeader` the header in front of a forwarded connection.
--
-- Bounds. An integer type keeps its wrap-around (`% 256`, `% 65536`) or its saturation. The walk
-- over options or tags runs on as many rounds as there are bytes, and each round takes two of them
-- at least, four for a tag; `update`, `send` and the `recv` of datagrams run on as many rounds as
-- there are bytes or datagrams, and each takes one at least. A slice operation of the emitters whose
-- lengths do not fit is `none`, and one of the walk over options is `stuck`.
--
-- `Base` has the shared tests, lists, byte orders, bits and digits.
--
-- Not modelled: the PPPoE datapath, sockets, devices, the ciphers and curves of the crates, random
-- numbers, the terminal interface, the installer, and the asynchronous server and client around the
-- messages.
pub mod Admission
pub mod Base
pub mod Hash
pub mod Noise
pub mod Ppp
pub mod Pppoe
pub mod Proto
