-- ===== src/Proto/Utf8.antt =====
-- Well-formed UTF-8, as Rust's `str::from_utf8` checks it: an automaton over the bytes.
use zeronat.Base.{ℕ, Bool, true, false, Option, none, some, List, [], ◌∷◌, ◌&&◌, leb, if◌then◌else◌}

-- How many continuation bytes are due; the next one's range is narrower after some lead bytes.
pub data Due : Type 0 where
  start one two three after_e0 after_ed after_f0 after_f4 : Due

abbrev between : ℕ → ℕ → ℕ → Bool
between lo hi n = leb lo n && leb n hi

lead : ℕ → Option Due
lead n =
    if leb n 0x7f
    then some start
    else if between 0xc2 0xdf n
    then some one
    else if between 0xe0 0xe0 n
    then some after_e0
    else if between 0xed 0xed n
    then some after_ed
    else if between 0xe1 0xef n
    then some two
    else wide_lead n
  where
    wide_lead : ℕ → Option Due
    wide_lead n =
        if between 0xf0 0xf0 n
        then some after_f0
        else if between 0xf1 0xf3 n
        then some three
        else if between 0xf4 0xf4 n
        then some after_f4
        else none

next : Due → ℕ → Option Due
unfolding lead
next start n = lead n
next one n = if between 0x80 0xbf n then some start else none
next two n = if between 0x80 0xbf n then some one else none
next three n = if between 0x80 0xbf n then some two else none
next after_e0 n = if between 0xa0 0xbf n then some one else none
next after_ed n = if between 0x80 0x9f n then some one else none
next after_f0 n = if between 0x90 0xbf n then some two else none
next after_f4 n = if between 0x80 0x8f n then some two else none

ends_from : Option Due → List ℕ → Bool
unfolding next
ends_from none s = false
ends_from (some start) [] = true
ends_from (some _) [] = false
ends_from (some d) (n ∷ s) = ends_from (next d n) s

unfoldable pub is_utf8 : List ℕ → Bool
unfolding ends_from
is_utf8 s = ends_from (some start) s
