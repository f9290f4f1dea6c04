-- ===== src/Ppp/Wire/Emit.antt =====
-- What the emitters of wire.rs write, as byte strings, and that a buffer of `buffer_len()` bytes
-- is exactly right for them.
use zeronat.Base.{
  ℕ, ◌+◌, ◌%◌, ◌≤◌, ◌≡◌, refl, ap, some, List, [], ◌∷◌, ◌++◌, length, take, drop, be16, length-take,
  length-drop, arith,
}
use zeronat.Ppp.Wire.{
  OptionVal, option_len, emit_option, options_len, emit_options, PppPayload, owned, options,
  body_len, emit_body, Payload, ppp, payload_len, emit_payload, Packet, packet_len, emit, code_u8,
  proto_u16, split_at, copy_from_slice,
}

unfoldable pub render_option : OptionVal → List ℕ
render_option o = o.code ∷ ((length o.body % 256 + 2) % 256) ∷ o.body

unfoldable pub render_options : List OptionVal → List ℕ
render_options [] = []
render_options (o ∷ os) = render_option o ++ render_options os

unfoldable pub render_body : PppPayload → List ℕ
render_body (PppPayload.raw bytes) = bytes
render_body (owned bytes) = bytes
render_body (PppPayload.pap user pass) =
    ((length user % 256) ∷ user) ++ ((length pass % 256) ∷ pass)
render_body (options os) = render_options os

unfoldable pub render_payload : Payload → List ℕ
render_payload (Payload.raw bytes) = bytes
render_payload (ppp code id body) =
    code_u8 code ∷ id ∷ be16 ((body_len body % 65536 + 4) % 65536) ++ render_body body

unfoldable pub render : Packet → List ℕ
render p = be16 (proto_u16 p.proto) ++ render_payload p.payload

split_at-le :
    (n : ℕ) (buffer : List ℕ)
    → n ≤ length buffer
    → split_at n buffer ≡ some (take n buffer, drop n buffer)
unfolding split_at
split_at-le n buffer h = ground arith

copy-same :
    (buffer src : List ℕ) → length buffer ≡ length src → copy_from_slice buffer src ≡ some src
unfolding copy_from_slice
copy-same buffer src h = ground arith

emit_option-render :
    (o : OptionVal) (buffer : List ℕ)
    → length buffer ≡ option_len o
    → emit_option o buffer ≡ some (render_option o)
unfolding emit_option render_option
emit_option-render o [] h = absurd (omega arith)
emit_option-render o (a ∷ []) h = absurd (omega arith)
emit_option-render o (a ∷ b ∷ rest) h = ground (arith, copy-same rest o.body)

emit_options-render :
    (os : List OptionVal) (buffer : List ℕ)
    → length buffer ≡ options_len os
    → emit_options os buffer ≡ some (render_options os)
unfolding emit_options render_options
emit_options-render [] [] h = refl
emit_options-render [] (a ∷ rest) h = absurd (omega arith)
emit_options-render (o ∷ os) buffer h = ground (
  arith,
  split_at-le (option_len o) buffer,
  length-take (option_len o) buffer,
  length-drop (option_len o) buffer,
  emit_option-render o (take (option_len o) buffer),
  emit_options-render os (drop (option_len o) buffer),
)

emit_body-render :
    (b : PppPayload) (buffer : List ℕ)
    → length buffer ≡ body_len b
    → emit_body b buffer ≡ some (render_body b)
unfolding emit_body render_body
emit_body-render (PppPayload.raw bytes) buffer h = copy-same buffer bytes h
emit_body-render (owned bytes) buffer h = copy-same buffer bytes h
emit_body-render (PppPayload.pap user pass) [] h = absurd (omega arith)
emit_body-render (PppPayload.pap user pass) (a ∷ rest) h = pass_part (drop (length user) rest) refl
  where
    pass_part :
        (buffer : List ℕ)
        → drop (length user) rest ≡ buffer
        → emit_body (PppPayload.pap user pass) (a ∷ rest)
          ≡ some (render_body (PppPayload.pap user pass))
    pass_part [] e = absurd (omega (arith, length-drop (length user) rest, ap length e))
    pass_part (b ∷ buffer) e = ground (
      arith,
      split_at-le (length user) rest,
      copy-same (take (length user) rest) user,
      length-take (length user) rest,
      length-drop (length user) rest,
      ap length e,
      copy-same buffer pass,
    )
emit_body-render (options os) buffer h = emit_options-render os buffer h

emit_payload-render :
    (p : Payload) (buffer : List ℕ)
    → length buffer ≡ payload_len p
    → emit_payload p buffer ≡ some (render_payload p)
unfolding emit_payload render_payload
emit_payload-render (Payload.raw bytes) buffer h = copy-same buffer bytes h
emit_payload-render (ppp code id body) [] h = absurd (omega arith)
emit_payload-render (ppp code id body) (a ∷ []) h = absurd (omega arith)
emit_payload-render (ppp code id body) (a ∷ b ∷ []) h = absurd (omega arith)
emit_payload-render (ppp code id body) (a ∷ b ∷ c ∷ []) h = absurd (omega arith)
emit_payload-render (ppp code id body) (a ∷ b ∷ c ∷ d ∷ rest) h =
    unfold split_at copy_from_slice in ground (arith, emit_body-render body rest)

-- A buffer of exactly `buffer_len()` bytes is filled with the packet's bytes: no slice operation
-- of the emitters fails.
pub emit-render :
    (p : Packet) (buffer : List ℕ) → length buffer ≡ packet_len p → emit p buffer ≡ some (render p)
unfolding emit render
emit-render p [] h = absurd (omega arith)
emit-render p (a ∷ []) h = absurd (omega arith)
emit-render p (a ∷ b ∷ rest) h =
    unfold split_at copy_from_slice in ground (arith, emit_payload-render p.payload rest)
