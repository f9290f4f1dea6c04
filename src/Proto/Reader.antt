-- ===== src/Proto/Reader.antt =====
-- src/proto.rs: `Rd`, the read cursor. `rest` is the body from the cursor on, so `at + n > b.len()`
-- is `length rest < n`. The first failure is kept, and after it every read yields a zero value.
-- A reader is a function of the cursor, and a `do` block runs readers in order.
use Prim.Native.String.{String}
use zeronat.Base.{
  ℕ, zero, suc, ◌+◌, ◌*◌, ◌^◌, Bool, true, false, not, ◌&&◌, ◌||◌, Option, none, some, List, [],
  ◌∷◌, ltb, leb, ◌==◌, if◌then◌else◌, length, take, drop, u16_be, u32_be,
}
use zeronat.Proto.Types.{Proto, tcp, udp, PathStatus, direct, relay}

pub data Error : Type 0 where
  message : String → Error  -- a fixed text
  bad_byte : String → ℕ → Error  -- "<what> byte <n>"
  truncated : String → Error  -- "truncated <what>"
  malformed : ℕ → Error  -- "malformed message (<n> bytes)"

pub record Rd : Type 0 where
  pub rest : List ℕ
  pub err : Option Error

abbrev pub Reader : Type 0 → Type 0
Reader A = Rd → A × Rd

infixl 5 ◌>>=◌ ◌>>◌
unfoldable pub ◌>>=◌ : {A B : Type 0} → Reader A → (A → Reader B) → Reader B
◌>>=◌ m f r = f (m r).0 (m r).1

unfoldable pub ◌>>◌ : {A B : Type 0} → Reader A → Reader B → Reader B
◌>>◌ m k r = k (m r).1

unfoldable pub ret : {A : Type 0} → A → Reader A
ret a r = (a, r)

abbrev is_none : Option Error → Bool
is_none none = true
is_none (some e) = false

-- `ok`
unfoldable pub is_ok : Rd → Bool
is_ok r = is_none r.err

unfoldable pub fail : Error → Reader (Unit {0})
unfolding is_ok
fail e r = (tt, if is_ok r then record r { err = some e } else r)

unfoldable pub need : ℕ → String → Reader (Unit {0})
unfolding is_ok
need n what r =
    (tt, if is_ok r && ltb (length r.rest) n then record r { err = some (message what) } else r)

unfoldable pub at_end : String → Reader (Unit {0})
unfolding is_ok
at_end what r =
    (tt, if is_ok r && ltb 0 (length r.rest) then record r { err = some (message what) } else r)

-- `take`
unfoldable pub take_bytes : ℕ → Reader (List ℕ)
unfolding is_ok
take_bytes n r =
    if not (is_ok r) || ltb (length r.rest) n
    then ([], r)
    else (take n r.rest, record r { rest = drop n r.rest })

abbrev first_or_0 : List ℕ → ℕ
first_or_0 [] = 0
first_or_0 (x ∷ xs) = x

abbrev two_or_0 : List ℕ → ℕ
two_or_0 (a ∷ b ∷ []) = u16_be a b
two_or_0 _ = 0

abbrev four_or_0 : List ℕ → ℕ
four_or_0 (a ∷ b ∷ c ∷ d ∷ []) = u32_be a b c d
four_or_0 _ = 0

abbrev eight_or_0 : List ℕ → ℕ
eight_or_0 (a ∷ b ∷ c ∷ d ∷ e ∷ f ∷ g ∷ h ∷ []) = u32_be a b c d * 2 ^ 32 + u32_be e f g h
eight_or_0 _ = 0

unfoldable pub get_u8 : Reader ℕ
unfolding take_bytes
get_u8 = do x ← take_bytes 1; ret (first_or_0 x)

unfoldable pub get_u16 : Reader ℕ
unfolding take_bytes
get_u16 = do x ← take_bytes 2; ret (two_or_0 x)

unfoldable pub get_u32 : Reader ℕ
unfolding take_bytes
get_u32 = do x ← take_bytes 4; ret (four_or_0 x)

unfoldable pub get_u64 : Reader ℕ
unfolding take_bytes
get_u64 = do x ← take_bytes 8; ret (eight_or_0 x)

-- `count`
unfoldable pub get_count : String → Reader ℕ
unfolding need get_u16
get_count what = do need 2 what; get_u16

unfoldable pub flag_of : String → ℕ → Reader Bool
unfolding fail
flag_of what n =
    if n == 0 then ret false else if n == 1 then ret true else (fail (bad_byte what n) >> ret false)

unfoldable pub flag : String → Reader Bool
unfolding get_u8 flag_of
flag what = do n ← get_u8; flag_of what n

unfoldable pub one_of : ℕ → ℕ → String → Reader ℕ
unfolding get_u8 fail
one_of a b what = do
  n ← get_u8
  if n == a || n == b then ret n else (fail (bad_byte what n) >> ret n)

unfoldable pub index : ℕ → String → Reader ℕ
unfolding get_u8 fail
index limit what = do n ← get_u8; if leb limit n then (fail (bad_byte what n) >> ret 0) else ret n

unfoldable pub get_proto : Reader Proto
unfolding one_of
get_proto = do n ← one_of 1 2 "unknown proto"; ret (if n == 1 then tcp else udp)

-- `SETTLED_PATHS[i]`
abbrev settled_path_at : ℕ → Option PathStatus
settled_path_at zero = none
settled_path_at (suc zero) = some direct
settled_path_at (suc (suc n)) = some relay

unfoldable pub settled_path : Reader (Option PathStatus)
unfolding index
settled_path = do i ← index 3 "unknown settled path"; ret (settled_path_at i)
