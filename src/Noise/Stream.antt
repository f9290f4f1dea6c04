-- ===== src/Noise/Stream.antt =====
-- src/noise.rs: the two halves of an encrypted stream. What the reader's source still delivers is a list
-- of the results of its reads: a chunk of bytes each, of which a read takes what it has room for,
-- and an empty chunk at the end of the connection. At the end of the list the next read waits, and
-- the future may be dropped there. The filled part of an array is a list.
use zeronat.Base.{
  ℕ, suc, zero, ◌+◌, ◌-◌, ◌%◌, ◌^◌, List, [], ◌∷◌, ◌++◌, Option, none, some, Bool, true, false,
  if◌then◌else◌, length, take, drop, ltb, leb, get_or, be16, u16_be,
}
use zeronat.Noise.Primitives.{Primitives}
use zeronat.Noise.Symmetric.{Keys, aead_open, aead_seal, tag_len}

abbrev pub max_plaintext : ℕ
max_plaintext = 65519

pub record NoiseWriter : Type 0 where
  pub send_key : List ℕ
  pub send_n : ℕ

pub record NoiseReader : Type 0 where
  pub recv_key : List ℕ
  pub recv_n : ℕ
  pub len : List ℕ
  pub have_len : Bool
  pub size : ℕ
  pub body : List ℕ

-- `finish`
unfoldable pub finish_reader : Keys → NoiseReader
finish_reader k = record {
  recv_key = k.recv_key;
  recv_n = 0;
  len = [];
  have_len = false;
  size = 0;
  body = [];
}

unfoldable pub finish_writer : Keys → NoiseWriter
finish_writer k = record { send_key = k.send_key; send_n = 0 }

-- What a loop of reads has, what is left, and whether the connection is closed.
pub record Taken : Type 0 where
  pub got : List ℕ
  pub left : List (List ℕ)
  pub closed : Bool

-- A loop that reads until it has as many bytes as it wants.
unfoldable pub read_until : ℕ → List ℕ → List (List ℕ) → Taken
read_until want got [] = record { got = got; left = []; closed = false }
read_until want got ([] ∷ cs) = record { got = got; left = [] ∷ cs; closed = ltb (length got) want }
read_until want got ((b ∷ bs) ∷ cs) =
    let room = want - length got in
    let rest = read_until want (got ++ (b ∷ bs)) cs in
    if leb want (length got)
    then record { got = got; left = (b ∷ bs) ∷ cs; closed = false }
    else if leb (suc (length bs)) room
    then rest
    else record { got = got ++ take room (b ∷ bs); left = drop room (b ∷ bs) ∷ cs; closed = false }

pub data Fill : Type 0 where
  plaintext : List ℕ → Fill
  waits connection_closed undecryptable : Fill

abbrev pub stopped : Bool → Fill
stopped true = connection_closed
stopped false = waits

-- `body.clear(); body.resize(…)`, once the length is there
unfoldable pub with_len : NoiseReader → NoiseReader
with_len r = if r.have_len then r else record r {
  have_len = true;
  size = u16_be (get_or r.len 0 0) (get_or r.len 1 0);
  body = [];
}

module _ (c : Primitives) where
  -- Lay one frame out and advance the nonce.
  unfoldable pub frame : NoiseWriter → List ℕ → NoiseWriter × List ℕ
  frame w chunk =
      let (text, tag) = aead_seal c w.send_key w.send_n [] chunk in
      (
        record w { send_n = (w.send_n + 1) % 2 ^ 64 },
        (be16 ((length chunk + tag_len) % 65536) ++ text) ++ tag,
      )

  -- `send`: the frames of the chunks of a plaintext, on as much fuel as it has bytes.
  unfoldable pub send_chunks : ℕ → NoiseWriter → List ℕ → NoiseWriter × List ℕ
  send_chunks zero w bytes = (w, [])
  send_chunks (suc fuel) w [] = (w, [])
  send_chunks (suc fuel) w (b ∷ bs) =
      let (w1, out) = frame w (take max_plaintext (b ∷ bs)) in
      let (w2, more) = send_chunks fuel w1 (drop max_plaintext (b ∷ bs)) in (w2, out ++ more)

  unfoldable pub send : NoiseWriter → List ℕ → NoiseWriter × List ℕ
  send w bytes = send_chunks (length bytes) w bytes

  unfoldable pub probe : NoiseWriter → NoiseWriter × List ℕ
  probe w = frame w []

  abbrev pub decrypted_frame :
      NoiseReader → List (List ℕ) → Option (List ℕ) → NoiseReader × List (List ℕ) × Fill
  decrypted_frame r left none = (r, left, undecryptable)
  decrypted_frame r left (some pt) =
      (record r { recv_n = (r.recv_n + 1) % 2 ^ 64 }, left, plaintext pt)

  -- Behind the loop for the body.
  unfoldable pub after_body : NoiseReader → Taken → NoiseReader × List (List ℕ) × Fill
  after_body r t =
      if ltb (length t.got) r.size
      then (record r { body = t.got }, t.left, stopped t.closed)
      else decrypted_frame (record r { len = []; have_len = false; body = t.got }) t.left
          (aead_open c r.recv_key r.recv_n [] t.got)

  unfoldable pub fill_body : NoiseReader → List (List ℕ) → NoiseReader × List (List ℕ) × Fill
  fill_body r src = after_body r (read_until r.size r.body src)

  -- Behind the loop for the length.
  unfoldable pub after_len : NoiseReader → Taken → NoiseReader × List (List ℕ) × Fill
  after_len r t =
      if ltb (length t.got) 2
      then (record r { len = t.got }, t.left, stopped t.closed)
      else fill_body (with_len (record r { len = t.got })) t.left

  unfoldable pub fill : NoiseReader → List (List ℕ) → NoiseReader × List (List ℕ) × Fill
  fill r src = after_len r (read_until 2 r.len src)
