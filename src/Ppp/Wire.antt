-- ===== src/Ppp/Wire.antt =====
-- src/pppoe/ppp/wire.rs: the PPP codes and the emitter of outbound packets.
-- A buffer is a list of bytes. `emit` fills the buffer that it is given; `none` stands for the
-- panic of a slice operation whose lengths do not fit.
pub mod Emit
use zeronat.Base.{
  ℕ, ◌+◌, ◌%◌, Option, none, some, List, [], ◌∷◌, ◌++◌, ◌>>=◌, ◌==◌, leb, if◌then◌else◌, length,
  take, drop, be16,
}

pub data ProtocolType : Type 0 where
  unknown lcp pap chap ipv4 ipv4cp : ProtocolType

-- `self.proto as u16`
abbrev pub proto_u16 : ProtocolType → ℕ
proto_u16 unknown = 0
proto_u16 lcp = 0xc021
proto_u16 pap = 0xc023
proto_u16 chap = 0xc223
proto_u16 ipv4 = 0x0021
proto_u16 ipv4cp = 0x8021

unfoldable pub proto_from_u16 : ℕ → ProtocolType
proto_from_u16 v =
    if v == 0xc021
    then lcp
    else if v == 0xc023
    then pap
    else if v == 0xc223
    then chap
    else if v == 0x0021
    then ipv4
    else if v == 0x8021
    then ipv4cp
    else unknown

pub data Code : Type 0 where
  unknown configure_req configure_ack configure_nack configure_rej terminate_req : Code
  terminate_ack code_rej protocol_rej echo_req echo_reply discard_req : Code

-- `code as u8`, which is also the derived order of codes.
abbrev pub code_u8 : Code → ℕ
code_u8 Code.unknown = 0
code_u8 configure_req = 1
code_u8 configure_ack = 2
code_u8 configure_nack = 3
code_u8 configure_rej = 4
code_u8 terminate_req = 5
code_u8 terminate_ack = 6
code_u8 code_rej = 7
code_u8 protocol_rej = 8
code_u8 echo_req = 9
code_u8 echo_reply = 10
code_u8 discard_req = 11

unfoldable pub code_from_u8 : ℕ → Code
code_from_u8 v =
    if v == 1
    then configure_req
    else if v == 2
    then configure_ack
    else if v == 3
    then configure_nack
    else if v == 4
    then configure_rej
    else from_5 v
  where
    from_5 : ℕ → Code
    from_5 v =
        if v == 5
        then terminate_req
        else if v == 6
        then terminate_ack
        else if v == 7
        then code_rej
        else if v == 8
        then protocol_rej
        else if v == 9
        then echo_req
        else if v == 10
        then echo_reply
        else if v == 11
        then discard_req
        else Code.unknown

pub record OptionVal : Type 0 where
  pub code : ℕ
  pub body : List ℕ

pub data PppPayload : Type 0 where
  raw : List ℕ → PppPayload
  owned : List ℕ → PppPayload
  pap : List ℕ → List ℕ → PppPayload
  options : List OptionVal → PppPayload

pub data Payload : Type 0 where
  raw : List ℕ → Payload
  ppp : Code → ℕ → PppPayload → Payload

pub record Packet : Type 0 where
  pub proto : ProtocolType
  pub payload : Payload

-- The two slice operations of the emitters: `split_at_mut` and `copy_from_slice`.
unfoldable pub split_at : ℕ → List ℕ → Option (List ℕ × List ℕ)
split_at n buffer = if leb n (length buffer) then some (take n buffer, drop n buffer) else none

unfoldable pub copy_from_slice : List ℕ → List ℕ → Option (List ℕ)
copy_from_slice buffer src = if length buffer == length src then some src else none

-- `buffer[0] = v`
abbrev pub set_first : List ℕ → ℕ → Option (ℕ × List ℕ)
set_first [] v = none
set_first (_ ∷ rest) v = some (v, rest)

-- `OptionVal`
abbrev pub option_len : OptionVal → ℕ
option_len o = 2 + length o.body

-- `self.data.len() as u8 + 2`: the cast and the sum wrap.
unfoldable pub emit_option : OptionVal → List ℕ → Option (List ℕ)
unfolding copy_from_slice
emit_option o buffer = do
  (code, buffer1) ← set_first buffer o.code
  (len, buffer2) ← set_first buffer1 ((length o.body % 256 + 2) % 256)
  body ← copy_from_slice buffer2 o.body
  some (code ∷ len ∷ body)

-- `Options`
abbrev pub options_len : List OptionVal → ℕ
options_len [] = 0
options_len (o ∷ os) = option_len o + options_len os

-- The loop writes each option to the front of what is left and leaves the rest of the buffer.
unfoldable pub emit_options : List OptionVal → List ℕ → Option (List ℕ)
unfolding split_at emit_option
emit_options [] buffer = some buffer
emit_options (o ∷ os) buffer = do
  (front, rest) ← split_at (option_len o) buffer
  front ← emit_option o front
  rest ← emit_options os rest
  some (front ++ rest)

-- `PPPPayload`
abbrev pub body_len : PppPayload → ℕ
body_len (PppPayload.raw bytes) = length bytes
body_len (owned bytes) = length bytes
body_len (PppPayload.pap user pass) = 1 + length user + 1 + length pass
body_len (options os) = options_len os

unfoldable pub emit_body : PppPayload → List ℕ → Option (List ℕ)
unfolding copy_from_slice split_at emit_options
emit_body (PppPayload.raw bytes) buffer = copy_from_slice buffer bytes
emit_body (owned bytes) buffer = copy_from_slice buffer bytes
emit_body (PppPayload.pap user pass) buffer = do
  (user_len, buffer1) ← set_first buffer (length user % 256)
  (user_slot, buffer2) ← split_at (length user) buffer1
  user' ← copy_from_slice user_slot user
  (pass_len, buffer3) ← set_first buffer2 (length pass % 256)
  pass' ← copy_from_slice buffer3 pass
  some (user_len ∷ user' ++ pass_len ∷ pass')
emit_body (options os) buffer = emit_options os buffer

-- `Payload`
abbrev pub payload_len : Payload → ℕ
payload_len (Payload.raw bytes) = length bytes
payload_len (ppp code id body) = 1 + 1 + 2 + body_len body

-- `payload.buffer_len() as u16 + 4` wraps.
unfoldable pub emit_payload : Payload → List ℕ → Option (List ℕ)
unfolding copy_from_slice split_at emit_body
emit_payload (Payload.raw bytes) buffer = copy_from_slice buffer bytes
emit_payload (ppp code id body) buffer = do
  (code', buffer1) ← set_first buffer (code_u8 code)
  (id', buffer2) ← set_first buffer1 id
  (len_slot, buffer3) ← split_at 2 buffer2
  len' ← copy_from_slice len_slot (be16 ((body_len body % 65536 + 4) % 65536))
  body' ← emit_body body buffer3
  some (code' ∷ id' ∷ len' ++ body')

-- `Packet`
abbrev pub packet_len : Packet → ℕ
packet_len p = 2 + payload_len p.payload

unfoldable pub emit : Packet → List ℕ → Option (List ℕ)
unfolding copy_from_slice split_at emit_payload
emit p buffer = do
  (proto_slot, rest) ← split_at 2 buffer
  proto' ← copy_from_slice proto_slot (be16 (proto_u16 p.proto))
  rest' ← emit_payload p.payload rest
  some (proto' ++ rest')
