-- ===== src/Noise/Datagram.antt =====
-- src/dgram.rs: datagrams over the shared socket. What the queue of the socket writer answers is an
-- argument of the sender, and what the router has for the receiver is a list of bodies, which ends where
-- the channel closes. A buffer that is used again is cleared before it is filled.
use zeronat.Base.{
  ℕ, suc, zero, List, [], ◌∷◌, ◌++◌, Option, none, some, if◌then◌else◌, length, ◌⊎◌, inl, inr, leb,
  ◌==◌, replicate, be32,
}
use zeronat.Proto.Utf8.{is_utf8}
use zeronat.Noise.Primitives.{Primitives}
use zeronat.Noise.Symmetric.{Error}
use zeronat.Noise.Transport.{StatelessNoise, seal_at, open_in_place}

abbrev pub class_dgram : ℕ
class_dgram = 0x03

abbrev pub kind_data : ℕ
kind_data = 0x00

abbrev pub kind_keepalive : ℕ
kind_keepalive = 0x01

abbrev pub kind_name : ℕ
kind_name = 0x02

abbrev pub max_name_len : ℕ
max_name_len = 256

pub data Frame : Type 0 where
  data_frame : List ℕ → Frame
  keepalive : Frame
  name_frame : List ℕ → Frame

pub record DgramTx : Type 0 where
  pub tag : ℕ
  pub noise : StatelessNoise

-- What `try_send` answers.
pub data TrySend : Type 0 where
  queued full closed : TrySend

pub data SendError : Type 0 where
  unsealed : Error → SendError
  transport_closed : SendError

-- What becomes of a sealed packet: it is on the queue, or dropped.
unfoldable pub queue_packet : TrySend → List ℕ → SendError ⊎ Option (List ℕ)
queue_packet queued pkt = inr (some pkt)
queue_packet full pkt = inr none
queue_packet closed pkt = inl transport_closed

abbrev pub frame_sealed :
    TrySend → DgramTx → StatelessNoise × (Error ⊎ List ℕ) → DgramTx × (SendError ⊎ Option (List ℕ))
frame_sealed answer tx (noise, inl e) = (record tx { noise = noise }, inl (unsealed e))
frame_sealed answer tx (noise, inr pkt) = (record tx { noise = noise }, queue_packet answer pkt)

-- The frame of a plaintext, unless its kind is unknown or its label bad.
unfoldable pub frame_of : List ℕ → Option Frame
frame_of [] = none
frame_of (kind ∷ rest) =
    if kind == kind_data
    then some (data_frame rest)
    else if kind == kind_keepalive
    then some keepalive
    else if kind == kind_name
    then if leb (length rest) max_name_len
      then if is_utf8 rest then some (name_frame rest) else none
      else none
    else none

-- Pass over a datagram that gives nothing.
abbrev pub pass_or_take {ℓ} :
    {A : Type ℓ}
    → StatelessNoise
    → List (List ℕ)
    → StatelessNoise × List (List ℕ) × Option A
    → Option A
    → StatelessNoise × List (List ℕ) × Option A
pass_or_take s ds rest none = rest
pass_or_take s ds rest (some x) = (s, ds, some x)

-- The payload of a plaintext that is data and not empty.
unfoldable pub data_of : List ℕ → Option (List ℕ)
data_of [] = none
data_of (kind ∷ []) = none
data_of (kind ∷ b ∷ bs) = if kind == kind_data then some (b ∷ bs) else none

-- Drop what is not of the kinds that are read; keep going.
abbrev pub after_next :
    {A : Type 0}
    → (List ℕ → Option A)
    → (StatelessNoise → List (List ℕ) → StatelessNoise × List (List ℕ) × Option A)
    → StatelessNoise × List (List ℕ) × Option (List ℕ)
    → StatelessNoise × List (List ℕ) × Option A
after_next read continue (s, ds, none) = (s, ds, none)
after_next read continue (s, ds, some p) = pass_or_take s ds (continue s ds) (read p)

module _ (c : Primitives) where
  unfoldable pub frame_packet :
      TrySend → DgramTx → ℕ → List ℕ → DgramTx × (SendError ⊎ Option (List ℕ))
  frame_packet answer tx kind payload =
      let pkt = (((class_dgram ∷ []) ++ be32 tx.tag) ++ replicate 8 0) ++ (kind ∷ []) ++ payload in
      frame_sealed answer tx (seal_at c tx.noise pkt 5)

  unfoldable pub send_datagram :
      TrySend → DgramTx → List ℕ → DgramTx × (SendError ⊎ Option (List ℕ))
  send_datagram answer tx datagram = frame_packet answer tx kind_data datagram

  unfoldable pub send_probe : TrySend → DgramTx → DgramTx × (SendError ⊎ Option (List ℕ))
  send_probe answer tx = frame_packet answer tx kind_keepalive []

  unfoldable pub send_name : TrySend → DgramTx → List ℕ → DgramTx × (SendError ⊎ Option (List ℕ))
  send_name answer tx name = frame_packet answer tx kind_name name

  -- The plaintext that a pass of the loop of `next` returns.
  abbrev pub received_plaintext : Error ⊎ List ℕ → Option (List ℕ)
  received_plaintext (inl e) = none
  received_plaintext (inr []) = none
  received_plaintext (inr (b ∷ bs)) = some (b ∷ bs)

  -- `next`
  unfoldable pub next_plaintext :
      StatelessNoise → List (List ℕ) → StatelessNoise × List (List ℕ) × Option (List ℕ)
  next_plaintext s [] = (s, [], none)
  next_plaintext s (d ∷ ds) =
      let out = open_in_place c s d in
      pass_or_take out.0 ds (next_plaintext out.0 ds) (received_plaintext out.1)

  -- The loop of `recv` and `recv_data`, on as much fuel as there are datagrams.
  unfoldable pub recv_loop :
      {A : Type 0}
      → (List ℕ → Option A)
      → ℕ
      → StatelessNoise
      → List (List ℕ)
      → StatelessNoise × List (List ℕ) × Option A
  recv_loop read zero s ds = (s, ds, none)
  recv_loop read (suc fuel) s ds = after_next read (recv_loop read fuel) (next_plaintext s ds)

  unfoldable pub recv :
      StatelessNoise → List (List ℕ) → StatelessNoise × List (List ℕ) × Option Frame
  recv s ds = recv_loop frame_of (length ds) s ds

  unfoldable pub recv_data :
      StatelessNoise → List (List ℕ) → StatelessNoise × List (List ℕ) × Option (List ℕ)
  recv_data s ds = recv_loop data_of (length ds) s ds
