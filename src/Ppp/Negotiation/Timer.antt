-- ===== src/Ppp/Negotiation/Timer.antt =====
-- The restart timer: how often a request is sent again, and when the negotiation gives up.
use zeronat.Base.{
  replicate, refl, length-append, ◌%◌, ℕ, zero, suc, ◌+◌, ◌≤◌, ◌≡◌, Bool, true, false, none, some,
  List, [], ◌++◌, arith, ◌*◌, length,
}
use zeronat.Ppp.Wire.{configure_req, options, ppp, Packet}
use zeronat.Ppp.Fsm.{
  Protocol, State, closed, opened, max_configure, OptionFsm, send_all, on_tick, back_to_req_sent,
  open_fsm, is_closed, req_sent,
}

abbrev pub is_running : State → Bool
is_running closed = false
is_running opened = false
is_running _ = true

module _ {P : Type 0} (pr : Protocol P) where
  unfoldable pub tick_all : ℕ → OptionFsm P → OptionFsm P × List Packet
  tick_all zero f = (f, [])
  tick_all (suc n) f =
      let (f', sent) = on_tick pr f in let (g, more) = tick_all n f' in (g, send_all sent ++ more)

  -- The Configure-Request of `f` under its present identifier.
  abbrev pub current_request : OptionFsm P → Packet
  current_request f = record {
    proto = pr.protocol f.proto;
    payload = ppp configure_req f.id (options (pr.own_options f.proto));
  }

  wait_tick :
      (f : OptionFsm P) (t : ℕ)
      → is_running f.state ≡ true
      → f.ticks_since_send ≡ t
      → t ≤ 1
      → on_tick pr f ≡ (record f { ticks_since_send = t + 1 }, none)
  unfolding on_tick
  wait_tick f t h e k = ground arith

  resend_tick :
      (f : OptionFsm P) (a : ℕ)
      → is_running f.state ≡ true
      → f.ticks_since_send ≡ 2
      → f.attempts ≡ a
      → a ≤ 9
      → on_tick pr f ≡ (
        record f { state = back_to_req_sent f.state; ticks_since_send = 0; attempts = a + 1 },
        some (current_request f),
      )
  unfolding on_tick
  resend_tick f a h e k l = ground arith

  last_tick :
      (f : OptionFsm P)
      → is_running f.state ≡ true
      → f.up_seen ≡ false
      → f.ticks_since_send ≡ 2
      → f.attempts ≡ max_configure
      → on_tick pr f
        ≡ (record f { state = closed; up_seen = false; ticks_since_send = 3; failed = true }, none)
  unfolding on_tick
  last_tick f h u e k = ground arith

  -- `k` retransmissions are left: they go out every third tick, under one identifier, and three
  -- ticks after the last one the automaton gives up.
  give_up :
      (k n : ℕ) (f : OptionFsm P)
      → n ≡ 3 * k + 3
      → is_running f.state ≡ true
      → f.up_seen ≡ false
      → f.ticks_since_send ≡ 0
      → f.attempts + k ≡ max_configure
      → ((tick_all n f).0.state ≡ closed)
        × ((tick_all n f).0.failed ≡ true)
        × ((tick_all n f).1 ≡ replicate k (current_request f))
  unfolding tick_all
  give_up zero (suc (suc (suc zero))) f e h u t a = ground (
    arith,
    wait_tick f 0,
    wait_tick (record f { ticks_since_send = 1 }) 1,
    last_tick (record f { ticks_since_send = 2 }),
  )
  give_up (suc k) (suc (suc (suc n))) f e h u t a =
      let f3 : OptionFsm P = record f {
        state = back_to_req_sent f.state;
        ticks_since_send = 0;
        attempts = f.attempts + 1;
      } in
      ground (
        arith,
        wait_tick f 0,
        wait_tick (record f { ticks_since_send = 1 }) 1,
        resend_tick (record f { ticks_since_send = 2 }) f.attempts,
        give_up k n f3,
      )
  give_up _ _ f e h u t a = absurd (omega arith)

  opened_from_closed :
      (f : OptionFsm P)
      → f.state ≡ closed
      → open_fsm pr f ≡ (
        record f {
          id = (f.id + 1) % 256;
          state = req_sent;
          ticks_since_send = 0;
          attempts = 1;
          naks_sent = 0;
          failed = false;
        },
        current_request (record f { id = (f.id + 1) % 256 }),
      )
  unfolding open_fsm
  opened_from_closed f h = ground arith

  -- Opened from `Closed` and left unanswered for thirty ticks, the automaton sends its first
  -- Configure-Request nine times more, unchanged, and then parks in `Closed` with `failed` set.
  pub open-gives_up :
      (f : OptionFsm P)
      → f.state ≡ closed
      → f.up_seen ≡ false
      → ((tick_all 30 (open_fsm pr f).0).0.state ≡ closed)
        × ((tick_all 30 (open_fsm pr f).0).0.failed ≡ true)
        × ((tick_all 30 (open_fsm pr f).0).1 ≡ replicate 9 (open_fsm pr f).1)
  open-gives_up f h u =
      let g : OptionFsm P = record f {
        id = (f.id + 1) % 256;
        state = req_sent;
        ticks_since_send = 0;
        attempts = 1;
        naks_sent = 0;
        failed = false;
      } in
      rw (opened_from_closed f h) (give_up 9 30 g (omega arith) refl u refl (omega arith))

  abbrev StaysUp : OptionFsm P → Type 0
  StaysUp f = (f.up_seen ≡ true) × (is_closed f.state ≡ false) × (f.failed ≡ false)

  on_tick-StaysUp : (f : OptionFsm P) → StaysUp f → StaysUp (on_tick pr f).0
  unfolding on_tick
  on_tick-StaysUp f h = ground arith

  -- A link that has been up is never closed or failed by the timer, however long it runs.
  pub tick_all_stays_up :
      (n : ℕ) (f : OptionFsm P)
      → f.up_seen ≡ true
      → is_closed f.state ≡ false
      → f.failed ≡ false
      → (is_closed (tick_all n f).0.state ≡ false) × ((tick_all n f).0.failed ≡ false)
  unfolding tick_all
  tick_all_stays_up zero f u c h = (c, h)
  tick_all_stays_up (suc n) f u c h =
      let (u', c', h') = on_tick-StaysUp f (u, c, h) in
      tick_all_stays_up n (on_tick pr f).0 u' c' h'

  on_tick_spends :
      (f : OptionFsm P)
      → f.attempts ≤ max_configure
      → ((on_tick pr f).0.attempts ≡ f.attempts + length (send_all (on_tick pr f).1))
        × ((on_tick pr f).0.attempts ≤ max_configure)
  unfolding on_tick
  on_tick_spends f h = ground arith

  -- Without an answer from the peer the timer never sends more than what is left of the budget of
  -- ten requests.
  pub tick_all_budget :
      (n : ℕ) (f : OptionFsm P)
      → f.attempts ≤ max_configure
      → length (tick_all n f).1 + f.attempts ≤ max_configure
  unfolding tick_all
  tick_all_budget zero f h = omega arith
  tick_all_budget (suc n) f h =
      let (spent, capped) = on_tick_spends f h in
      omega (
        arith,
        length-append (send_all (on_tick pr f).1) (tick_all n (on_tick pr f).0).1,
        tick_all_budget n (on_tick pr f).0 capped,
        spent,
      )
