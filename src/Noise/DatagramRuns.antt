-- ===== src/Noise/DatagramRuns.antt =====
-- src/dgram.rs: what `recv` does with each datagram, as a relation of its own.
use zeronat.Base.{
  ℕ, ◌≡◌, ◌≤◌, ◌<◌, refl, List, [], ◌∷◌, Option, none, some, length, ◌⊎◌, inl, inr, true, false,
  ◌==◌, leb, Bool-cases, arith,
}
use mathlib.Core.Path.{subst}
use zeronat.Proto.Utf8.{is_utf8}
use zeronat.Noise.Primitives.{Primitives}
use zeronat.Noise.Symmetric.{Error}
use zeronat.Noise.Transport.{StatelessNoise, open_in_place}
use zeronat.Noise.Datagram.{
  Frame, data_frame, keepalive, name_frame, recv, received_plaintext, frame_of, pass_or_take,
}
use zeronat.Noise.DatagramLaws.{recv_each, read_plaintext, recv_lem}

-- Why a plaintext gives no frame: it is empty, its kind is unknown, its label is too long, or
-- its label is not UTF-8.
pub data Unread : List ℕ → Type 0 where
  empty : Unread []
  unknown_kind : {kind : ℕ} {rest : List ℕ} → 2 < kind → Unread (kind ∷ rest)
  long_label : {rest : List ℕ} → 256 < length rest → Unread (2 ∷ rest)
  bad_label : {rest : List ℕ} → is_utf8 rest ≡ false → Unread (2 ∷ rest)

-- The frame that a plaintext is.
pub data Read : List ℕ → Frame → Type 0 where
  data_read : {rest : List ℕ} → Read (0 ∷ rest) (data_frame rest)
  keepalive_read : {rest : List ℕ} → Read (1 ∷ rest) keepalive
  name_read :
      {rest : List ℕ} → length rest ≤ 256 → is_utf8 rest ≡ true → Read (2 ∷ rest) (name_frame rest)

-- A receiver goes past what does not open and what gives no frame, and stops at the first frame,
-- with the datagrams behind it, or where the channel is closed.
pub data Receives (c : Primitives)
    : StatelessNoise → List (List ℕ) → StatelessNoise → List (List ℕ) → Option Frame → Type 0 where
  channel_closed : {s : StatelessNoise} → Receives c s [] s [] none
  past_unopened :
      {s t s' : StatelessNoise} {d : List ℕ} {ds rest : List (List ℕ)} {f : Option Frame}
      {e : Error}
      → open_in_place c s d ≡ (t, inl e)
      → Receives c t ds s' rest f
      → Receives c s (d ∷ ds) s' rest f
  past_unread :
      {s t s' : StatelessNoise} {d p : List ℕ} {ds rest : List (List ℕ)} {f : Option Frame}
      → open_in_place c s d ≡ (t, inr p)
      → Unread p
      → Receives c t ds s' rest f
      → Receives c s (d ∷ ds) s' rest f
  first_frame :
      {s t : StatelessNoise} {d p : List ℕ} {ds : List (List ℕ)} {f : Frame}
      → open_in_place c s d ≡ (t, inr p)
      → Read p f
      → Receives c s (d ∷ ds) t ds (some f)

-- What `frame_of` gives, with the reason.
abbrev Judged : List ℕ → Option Frame → Type 0
Judged p none = Unread p
Judged p (some f) = Read p f

label : (rest : List ℕ) → Judged (2 ∷ rest) (frame_of (2 ∷ rest))
unfolding frame_of
label rest = elim (Bool-cases (leb (length rest) 256)) [
  | inl fits ↦ rw fits (elim (Bool-cases (is_utf8 rest)) [
    | inl good ↦ rw good (name_read (ground arith) good)
    | inr bad ↦ rw bad (bad_label bad)
  ])
  | inr long ↦ rw long (long_label (ground arith))
]

judged : (kind : ℕ) (rest : List ℕ) → Judged (kind ∷ rest) (frame_of (kind ∷ rest))
unfolding frame_of
judged kind rest =
    let kinds = λ (k : ℕ). Judged (k ∷ rest) (frame_of (k ∷ rest)) in
    elim (Bool-cases (kind == 0)) [
      | inl z ↦ (let e : 0 ≡ kind = ground arith in subst kinds e data_read)
      | inr not_data ↦ elim (Bool-cases (kind == 1)) [
        | inl o ↦ (let e : 1 ≡ kind = ground arith in subst kinds e keepalive_read)
        | inr not_probe ↦ elim (Bool-cases (kind == 2)) [
          | inl t ↦ (let e : 2 ≡ kind = ground arith in subst kinds e (label rest))
          | inr not_name ↦ rw (not_data, not_probe, not_name) (unknown_kind (ground arith))
        ]
      ]
    ]

module _ (c : Primitives) where
  abbrev Runs :
      StatelessNoise → List (List ℕ) → StatelessNoise × List (List ℕ) × Option Frame → Type 0
  Runs s ds out = Receives c s ds out.0 out.1 out.2

  read_frame :
      (s t : StatelessNoise) (d p : List ℕ) (ds : List (List ℕ)) (f : Option Frame)
      (later : StatelessNoise × List (List ℕ) × Option Frame)
      → open_in_place c s d ≡ (t, inr p)
      → Judged p f
      → Runs t ds later
      → Runs s (d ∷ ds) (pass_or_take t ds later f)
  read_frame s t d p ds none later e j h = past_unread e j h
  read_frame s t d p ds (some f) later e j h = first_frame e j

  after_open-Runs :
      (s : StatelessNoise) (d : List ℕ) (ds : List (List ℕ))
      (out : StatelessNoise × (Error ⊎ List ℕ))
      (later : StatelessNoise × List (List ℕ) × Option Frame)
      → open_in_place c s d ≡ out
      → Runs out.0 ds later
      → Runs s
          (d ∷ ds)
          (pass_or_take out.0 ds later (read_plaintext frame_of (received_plaintext c out.1)))
  unfolding read_plaintext
  after_open-Runs s d ds (t, inl x) later e h = past_unopened e h
  after_open-Runs s d ds (t, inr []) later e h = past_unread e empty h
  after_open-Runs s d ds (t, inr (k ∷ ks)) later e h =
      read_frame s t d (k ∷ ks) ds (frame_of (k ∷ ks)) later e (judged k ks) h

  recv_each-Runs : (s : StatelessNoise) (ds : List (List ℕ)) → Runs s ds (recv_each c frame_of s ds)
  unfolding recv_each
  recv_each-Runs s [] = channel_closed
  recv_each-Runs s (d ∷ ds) =
      let out = open_in_place c s d in
      after_open-Runs s d ds out (recv_each c frame_of out.0 ds) refl (recv_each-Runs out.0 ds)

-- The loop of recv ends on any datagrams: it goes past each that does not open or gives no frame, for a
-- reason named above, and gives the first frame with the datagrams behind it, or nothing when
-- all of them are gone.
pub recv-Receives :
    (c : Primitives) (s : StatelessNoise) (ds : List (List ℕ))
    → Receives c s ds (recv c s ds).0 (recv c s ds).1 (recv c s ds).2
recv-Receives c s ds = rw (recv_lem c s ds) (recv_each-Runs c s ds)
