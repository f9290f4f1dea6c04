-- ===== src/Pppoe/Discovery/Retry.antt =====
-- Discovery that nobody answers gives up.
use zeronat.Base.{
  ℕ, zero, suc, ◌+◌, ◌<◌, ◌^◌, ◌≡◌, List, [], ◌∷◌, ◌++◌, replicate, arith, refl, ap, ◌⊎◌, inl, inr,
  ◌≤◌, append-nil,
}
use zeronat.Pppoe.Discovery.Machine.{
  Discovery, on_tick, Action, padi_sent, tick_stage, idle, padi_of, padr_sent, padr_of, send,
  failed, dead,
}

-- Ticks in a row, and what each returns.
unfoldable pub ticks : ℕ → Discovery → Discovery × List Action
ticks zero d = (d, [])
ticks (suc n) d = let (d', a) = on_tick d in let (d'', later) = ticks n d' in (d'', a ∷ later)

-- A stage waits for an answer, and the frame is what it resends.
unfoldable pub Awaits : Discovery → List ℕ → Type 0
Awaits d bytes =
    ((d.state ≡ padi_sent) × (padi_of d ≡ bytes)) ⊎ ((d.state ≡ padr_sent) × (padr_of d ≡ bytes))

on_tick-Awaits : (d : Discovery) (bytes : List ℕ) → Awaits d bytes → on_tick d ≡ tick_stage d bytes
unfolding Awaits on_tick tick_stage padi_of padr_of
on_tick-Awaits d bytes (inl (s, e)) = rw (s, e) refl
on_tick-Awaits d bytes (inr (s, e)) = rw (s, e) refl

counted-Awaits :
    (d : Discovery) (bytes : List ℕ) (t n : ℕ)
    → Awaits d bytes
    → Awaits (record d { ticks_since_send = t; attempts = n }) bytes
unfolding Awaits padi_of padr_of
counted-Awaits d bytes t n w = w

-- Before the resend is due, a tick only counts.
stage_quiet :
    (d : Discovery) (bytes : List ℕ)
    → d.ticks_since_send + 1 < d.retransmit_ticks
    → d.retransmit_ticks < 2 ^ 32
    → tick_stage d bytes ≡ (record d { ticks_since_send = d.ticks_since_send + 1 }, idle)
unfolding tick_stage
stage_quiet d bytes h b = ground arith

-- The ticks up to the one at which the resend is due.
ticks_round :
    (k last : ℕ) (d : Discovery) (bytes : List ℕ)
    → Awaits d bytes
    → d.ticks_since_send + k ≡ last
    → suc last ≡ d.retransmit_ticks
    → d.retransmit_ticks < 2 ^ 32
    → let due = tick_stage (record d { ticks_since_send = last }) bytes in
      ticks (suc k) d ≡ (due.0, replicate k idle ++ (due.1 ∷ []))
unfolding ticks
ticks_round zero last d bytes w h r b = rw (on_tick-Awaits d bytes w) (
    ap {A = ℕ}
      (λ t. let due = tick_stage (record d { ticks_since_send = t }) bytes in (due.0, due.1 ∷ []))
      (omega arith))
ticks_round (suc k) last d bytes w h r b =
    rw (on_tick-Awaits d bytes w, stage_quiet d bytes (omega arith) b)
      (ap (λ (out : Discovery × List Action). (out.0, idle ∷ out.1))
        (ticks_round k last (record d { ticks_since_send = d.ticks_since_send + 1 }) bytes
          (counted-Awaits d bytes (d.ticks_since_send + 1) d.attempts w) (omega arith) r b))

stage_resends :
    (d : Discovery) (bytes : List ℕ) (last : ℕ)
    → suc last ≡ d.retransmit_ticks
    → d.retransmit_ticks < 2 ^ 32
    → d.attempts + 1 < d.max_attempts
    → d.max_attempts < 2 ^ 32
    → tick_stage (record d { ticks_since_send = last }) bytes
      ≡ (record d { attempts = d.attempts + 1; ticks_since_send = 0 }, send bytes)
unfolding tick_stage
stage_resends d bytes last r b m c = ground arith

stage_gives_up :
    (d : Discovery) (bytes : List ℕ) (last : ℕ)
    → suc last ≡ d.retransmit_ticks
    → d.retransmit_ticks < 2 ^ 32
    → d.max_attempts ≤ d.attempts + 1
    → d.attempts + 1 < 2 ^ 32
    → tick_stage (record d { ticks_since_send = last }) bytes
      ≡ (record d { state = dead; ticks_since_send = suc last }, failed)
unfolding tick_stage
stage_gives_up d bytes last r b m c = ground arith

-- Rounds of the same number of ticks, and what each tick returns.
unfoldable pub rounds : ℕ → ℕ → Discovery → Discovery × List Action
rounds zero n d = (d, [])
rounds (suc r) n d =
    let (d', now) = ticks n d in let (d'', later) = rounds r n d' in (d'', now ++ later)

-- What a stage sends when nobody answers: after each round but the last, the same frame again.
unfoldable pub resends : ℕ → ℕ → List ℕ → List Action
resends zero last bytes = replicate last idle ++ (failed ∷ [])
resends (suc m) last bytes = (replicate last idle ++ (send bytes ∷ [])) ++ resends m last bytes

-- A stage that has resent nothing yet and awaits an answer, with m + 1 attempts of last + 1 ticks:
-- if no frame comes, after exactly as many rounds discovery is dead, and it has resent the stage's
-- frame m times, one fewer than the attempts, once at the end of each round but the last, and
-- reported the failure with the last tick.
pub rounds_unanswered :
    (m last : ℕ) (d : Discovery) (bytes : List ℕ)
    → Awaits d bytes
    → d.ticks_since_send ≡ 0
    → suc last ≡ d.retransmit_ticks
    → d.retransmit_ticks < 2 ^ 32
    → d.attempts + (m + 1) ≡ d.max_attempts
    → d.max_attempts < 2 ^ 32
    → ((rounds (suc m) (suc last) d).0.state ≡ dead)
      × ((rounds (suc m) (suc last) d).1 ≡ resends m last bytes)
unfolding rounds resends
rounds_unanswered zero last d bytes w z r b m c =
    rw
      (
        ticks_round last last d bytes w (omega arith) r b,
        stage_gives_up d bytes last r b (omega arith) (omega arith),
      )
      (refl, append-nil _)
rounds_unanswered (suc m) last d bytes w z r b n c =
    let again : Discovery = record d { attempts = d.attempts + 1; ticks_since_send = 0 } in
    let (is_dead, later) =
      rounds_unanswered m last again bytes (counted-Awaits d bytes 0 (d.attempts + 1) w) refl r b
        (omega arith) c in
    rw
      (
        ticks_round last last d bytes w (omega arith) r b,
        stage_resends d bytes last r b (omega arith) c,
      )
      (is_dead, ap (λ l. (replicate last idle ++ (send bytes ∷ [])) ++ l) later)
