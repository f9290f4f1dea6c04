-- ===== src/Ppp/Options.antt =====
-- src/pppoe/ppp/option_fsm.rs: `parse_options`, the walk over the options of a control packet.
-- The closure's captured state is the fold's state `S`: what it did before a malformed option is
-- kept, as in the source. Each round takes at least two bytes, so `length packet` rounds suffice;
-- `stuck` would be a loop that has not ended, or a slice that panics because its ends are out of order
-- or behind the packet.
pub mod Scan
use zeronat.Base.{
  ℕ, zero, suc, ◌-◌, List, [], ◌∷◌, if◌then◌else◌, ltb, leb, ◌&&◌, Bool, length, take, drop,
}

pub data Parsed : Type 0 where
  done malformed stuck : Parsed

-- Whether `&pkt[lo..hi]` is there, in a packet of so many bytes.
abbrev pub can_slice : ℕ → ℕ → ℕ → Bool
can_slice lo hi size = leb lo hi && leb hi size

module _ {ℓ} {S : Type ℓ} (f : S → ℕ → List ℕ → S) where
  unfoldable pub options_loop : ℕ → S → List ℕ → S × Parsed
  options_loop fuel s [] = (s, done)
  options_loop zero s (code ∷ rest) = (s, stuck)
  options_loop (suc fuel) s (code ∷ []) = (s, malformed)
  options_loop (suc fuel) s (code ∷ len ∷ rest) =
      let more = options_loop fuel (f s code (take (len - 2) rest)) (drop (len - 2) rest) in
      if ltb (length (code ∷ len ∷ rest)) len
      then (s, malformed)
      else if ltb len 2
      then (s, malformed)
      else if can_slice 2 len (length (code ∷ len ∷ rest))
      then more
      else (s, stuck)

  unfoldable pub parse_options : S → List ℕ → S × Parsed
  unfolding options_loop
  parse_options s packet = options_loop (length packet) s packet
