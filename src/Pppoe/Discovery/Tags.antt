-- ===== src/Pppoe/Discovery/Tags.antt =====
-- src/pppoe/discovery.rs: the tags of a discovery payload. `rest` is the buffer from the iterator's
-- position on, so the reads behind the position are reads of `rest`.
use zeronat.Base.{
  ℕ, zero, suc, ◌+◌, List, ◌++◌, Bool, false, Option, none, if◌then◌else◌, length, be16, ◌⊎◌, some,
  ◌==◌, ◌%◌, u16_be, inl, get_or, inr, ◌||◌, leb, ltb, true, drop, take,
}
use zeronat.Pppoe.Frame.{Error, tag_overrun}

abbrev pub tag_end_of_list : ℕ
tag_end_of_list = 0x0000

abbrev pub tag_service_name : ℕ
tag_service_name = 0x0101

abbrev pub tag_ac_name : ℕ
tag_ac_name = 0x0102

abbrev pub tag_host_uniq : ℕ
tag_host_uniq = 0x0103

abbrev pub tag_ac_cookie : ℕ
tag_ac_cookie = 0x0104

pub record Tag : Type 0 where
  pub tag_type : ℕ
  pub value : List ℕ

pub record Tags : Type 0 where
  pub rest : List ℕ
  pub finished : Bool

-- `Tags::new`
unfoldable pub tags : List ℕ → Tags
tags buf = record { rest = buf; finished = false }

-- `next`: the iterator behind, and the item.
unfoldable pub next : Tags → Tags × Option (Error ⊎ Tag)
next t =
    let tag_type = u16_be (get_or t.rest 0 0) (get_or t.rest 1 0) in
    let tag_len = u16_be (get_or t.rest 2 0) (get_or t.rest 3 0) in
    if t.finished || leb (length t.rest) 0
    then (t, none)
    else if ltb (length t.rest) 4
    then (record t { finished = true }, some (inl tag_overrun))
    else if tag_type == tag_end_of_list
    then (record t { finished = true }, none)
    else if ltb (length t.rest) (4 + tag_len)
    then (record t { finished = true }, some (inl tag_overrun))
    else (
      record t { rest = drop (4 + tag_len) t.rest },
      some (inr (record { tag_type = tag_type; value = take tag_len (drop 4 t.rest) })),
    )

-- What the parser keeps of the tags.
pub record Fields : Type 0 where
  pub ac_name : Option (List ℕ)
  pub ac_cookie : Option (List ℕ)
  pub host_uniq : Option (List ℕ)

abbrev pub no_fields : Fields
no_fields = record { ac_name = none; ac_cookie = none; host_uniq = none }

abbrev or_else : Option (List ℕ) → List ℕ → Option (List ℕ)
or_else none value = some value
or_else (some old) value = some old

-- The first tag of each kind counts, others are skipped.
unfoldable pub keep_tag : Fields → Tag → Fields
keep_tag f t =
    if t.tag_type == tag_ac_name
    then record f { ac_name = or_else f.ac_name t.value }
    else if t.tag_type == tag_ac_cookie
    then record f { ac_cookie = or_else f.ac_cookie t.value }
    else if t.tag_type == tag_host_uniq
    then record f { host_uniq = or_else f.host_uniq t.value }
    else f

-- How the loop over the tags ends; `stuck` would be a loop that has not.
pub data Walk : Type 0 where
  done : Fields → Walk
  failed : Error → Walk
  stuck : Walk

-- `for tag in Tags::new(payload)`: a tag takes four bytes at least.
abbrev pub after_next : (Fields → Tags → Walk) → Fields → Tags × Option (Error ⊎ Tag) → Walk
after_next more f (t, none) = done f
after_next more f (t, some (inl e)) = failed e
after_next more f (t, some (inr tag)) = more (keep_tag f tag) t

unfoldable pub walk : ℕ → Fields → Tags → Walk
walk zero f t = stuck
walk (suc fuel) f t = after_next (walk fuel) f (next t)

unfoldable pub walk_tags : List ℕ → Walk
walk_tags payload = walk (suc (length payload)) no_fields (tags payload)

unfoldable pub put_tag : List ℕ → ℕ → List ℕ → List ℕ
put_tag out tag_type value = out ++ be16 tag_type ++ be16 (length value % 65536) ++ value
