-- ===== src/Noise/Window.antt =====
-- src/noise.rs: the window of nonces that a stateless transport has received. `seen` is a u128.
use Prim.Native.Nat.{bit_and, bit_or}
use zeronat.Base.{ℕ, ◌-◌, ◌*◌, ◌%◌, ◌^◌, Option, none, some, not, if◌then◌else◌, ltb, leb, ◌==◌}
use zeronat.Noise.Symmetric.{Error, outside_window, replayed}

abbrev pub replay_window_len : ℕ
replay_window_len = 128

pub record ReplayWindow : Type 0 where
  pub highest : Option ℕ
  pub seen : ℕ

unfoldable pub empty_window : ReplayWindow
empty_window = record { highest = none; seen = 0 }

-- A nonce, where the highest one so far is known.
unfoldable pub check_behind : ReplayWindow → ℕ → ℕ → ReplayWindow × Option Error
check_behind w highest nonce =
    let advance = nonce - highest in
    let age = highest - nonce in
    if ltb highest nonce
    then (
      record {
        highest = some nonce;
        seen =
            if leb replay_window_len advance then 1 else bit_or (w.seen * 2 ^ advance % 2 ^ 128) 1;
      },
      none,
    )
    else if leb replay_window_len age
    then (w, some outside_window)
    else if not (bit_and w.seen (2 ^ age) == 0)
    then (w, some replayed)
    else (record w { seen = bit_or w.seen (2 ^ age) }, none)

abbrev pub check_from : Option ℕ → ReplayWindow → ℕ → ReplayWindow × Option Error
check_from none w nonce = (record { highest = some nonce; seen = 1 }, none)
check_from (some highest) w nonce = check_behind w highest nonce

-- `check_and_mark`: the window behind, and the error if there is one.
unfoldable pub check_and_mark : ReplayWindow → ℕ → ReplayWindow × Option Error
check_and_mark w nonce = check_from w.highest w nonce
