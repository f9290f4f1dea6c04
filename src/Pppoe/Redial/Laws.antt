-- ===== src/Pppoe/Redial/Laws.antt =====
-- The redial ladder: its rungs, and that a wait is counted down to one dial.
use zeronat.Base.{
  ap, refl, zero, suc, ℕ, List, ◌∷◌, [], ◌++◌, ◌≡◌, ◌≤◌, ◌≢◌, arith, some, Bool, suc, none, false,
  true, replicate,
}
use zeronat.Pppoe.Redial.{Redial, arm, due, default_redial}

-- The next wait is a rung of the ladder, and no wait of 0 runs.
pub record OnLadder (r : Redial) : Type 0 where
  pub rung : (3 ≤ r.next) × (r.next ≤ 60)
  pub running : r.wait ≢ some 0

pub default_redial-OnLadder : OnLadder default_redial
unfolding default_redial
default_redial-OnLadder = ground arith

-- Arming keeps the ladder: the wait that it reports lies between 3 and 60 ticks, and the next one
-- is no shorter.
pub arm_ladder :
    (r : Redial) (t : ℕ)
    → OnLadder r
    → (arm r).1 ≡ some t
    → OnLadder (arm r).0 × (3 ≤ t) × (t ≤ 60) × (t ≤ (arm r).0.next) × ((arm r).0.wait ≡ some t)
unfolding arm
arm_ladder r t h e = ground arith

pub due-OnLadder : (r : Redial) → OnLadder r → OnLadder (due r).0
unfolding due
due-OnLadder r h = ground arith

-- Ticks in a row, and what each reports.
unfoldable pub due_all : ℕ → Redial → Redial × List Bool
due_all zero r = (r, [])
due_all (suc n) r = let (r', now) = due r in let (r'', later) = due_all n r' in (r'', now ∷ later)

due_waiting :
    (r : Redial) (t : ℕ)
    → r.wait ≡ some (suc (suc t))
    → due r ≡ (record r { wait = some (suc t) }, false)
unfolding due
due_waiting r t e = ground arith

due_last : (r : Redial) → r.wait ≡ some 1 → due r ≡ (record r { wait = none }, true)
unfolding due
due_last r e = ground arith

-- A wait of one tick or more is counted down to a dial at its last tick, and not before.
pub due_all_wait :
    (t : ℕ) (r : Redial)
    → r.wait ≡ some (suc t)
    → due_all (suc t) r ≡ (record r { wait = none }, replicate t false ++ (true ∷ []))
unfolding due_all
due_all_wait zero r e = rw (due_last r e) refl
due_all_wait (suc t) r e = rw (due_waiting r t e) (
    ap (λ (out : Redial × List Bool). (out.0, false ∷ out.1))
      (due_all_wait t (record r { wait = some (suc t) }) refl))
