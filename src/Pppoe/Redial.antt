-- ===== src/Pppoe/Redial.antt =====
-- src/pppoe/redial.rs: the wait before the next dial. `left - 1` stops at 0 here and would panic
-- or wrap in the source on a wait of 0, which `arm` does not start.
pub mod Laws
use zeronat.Base.{
  ℕ, List, ◌∷◌, [], ◌++◌, Option, none, Bool, some, false, min, ◌-◌, ◌*◌, if◌then◌else◌, ltb, ◌==◌,
}

abbrev pub redial_ticks : ℕ
redial_ticks = 3

abbrev pub redial_ticks_max : ℕ
redial_ticks_max = 60

pub record Redial : Type 0 where
  pub wait : Option ℕ  -- u32
  pub next : ℕ  -- u32

-- `default`
unfoldable pub default_redial : Redial
default_redial = record { wait = none; next = redial_ticks }

arm_from : Option ℕ → Redial → Redial × Option ℕ
arm_from (some left) r = (r, none)
arm_from none r =
    (record { wait = some r.next; next = min (r.next * 2) redial_ticks_max }, some r.next)

unfoldable pub arm : Redial → Redial × Option ℕ
unfolding arm_from
arm r = arm_from r.wait r

due_from : Option ℕ → Redial → Redial × Bool
due_from none r = (r, false)
due_from (some wait) r =
    let left = wait - 1 in (record r { wait = if ltb 0 left then some left else none }, left == 0)

unfoldable pub due : Redial → Redial × Bool
unfolding due_from
due r = due_from r.wait r
