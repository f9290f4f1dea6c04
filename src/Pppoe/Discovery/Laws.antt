-- ===== src/Pppoe/Discovery/Laws.antt =====
-- The walk over the tags ends, and a PADR is read back.
use zeronat.Base.{
  ap, ◌∙◌, inl, some, ◌⊎◌, length-drop, refl, ℕ, suc, zero, ◌<◌, ◌≡◌, ◌≢◌, List, [], ◌++◌, inr,
  none, Option, true, false, arith, length, length-append, take-append, drop-append,
}
use zeronat.Pppoe.Frame.{MacAddr, put_eth_header, Error, parse_eth_header}
use zeronat.Pppoe.Discovery.Tags.{
  walk_tags, walk, Fields, stuck, put_tag, Tags, no_fields, keep_tag, tags, next, Tag, after_next,
  Walk,
}
use zeronat.Pppoe.Discovery.Packets.{
  parse_discovery_frame, put_pppoe, known_code, ethertype_discovery, packet_of, discovery_behind,
  discovery_from,
}

pub next_shrinks :
    (t t' : Tags) (tag : Tag) → next t ≡ (t', some (inr tag)) → length t'.rest < length t.rest
unfolding next
next_shrinks t t' tag e = grind (arith, length-drop)

-- One step of the walk, from a walk that is not stuck on shorter buffers.
after_next_ends :
    (more : Fields → Tags → Walk) (f : Fields) (t : Tags)
    → ((g : Fields) (t' : Tags) → length t'.rest < length t.rest → more g t' ≢ stuck)
    → (r : Tags × Option (Error ⊎ Tag)) → next t ≡ r
    → after_next more f r ≢ stuck
after_next_ends more f t ends (t', none) e = ground arith
after_next_ends more f t ends (t', some (inl x)) e = ground arith
after_next_ends more f t ends (t', some (inr tag)) e =
    ends (keep_tag f tag) t' (next_shrinks t t' tag e)

walk_fuel : (fuel : ℕ) (f : Fields) (t : Tags) → length t.rest < fuel → walk fuel f t ≢ stuck
unfolding walk
walk_fuel zero f t h = absurd (omega arith)
walk_fuel (suc fuel) f t h =
    after_next_ends (walk fuel) f t (λ g t' shorter. walk_fuel fuel g t' (omega arith)) (next t)
      refl

-- The walk over any payload ends, with the fields or an error.
pub walk_tags_ends : (payload : List ℕ) → walk_tags payload ≢ stuck
unfolding walk_tags tags
walk_tags_ends payload = walk_fuel (suc (length payload)) no_fields (tags payload) (omega arith)

next-put_tag :
    (tag_type : ℕ) (value more : List ℕ)
    → 0 < tag_type
    → tag_type < 65536
    → length value < 65536
    → next (record { rest = put_tag [] tag_type value ++ more; finished = false }) ≡ (
      record { rest = more; finished = false },
      some (inr (record { tag_type = tag_type; value = value })),
    )
unfolding next put_tag
next-put_tag tag_type value more hz ht hv =
    ground (arith, length-append value more, take-append value more, drop-append value more)

pub walk-put_tag :
    (fuel : ℕ) (f : Fields) (tag_type : ℕ) (value more : List ℕ)
    → 0 < tag_type
    → tag_type < 65536
    → length value < 65536
    → walk (suc fuel) f (record { rest = put_tag [] tag_type value ++ more; finished = false })
      ≡ walk fuel
          (keep_tag f (record { tag_type = tag_type; value = value }))
          (record { rest = more; finished = false })
unfolding walk
walk-put_tag fuel f tag_type value more hz ht hv =
    rw (next-put_tag tag_type value more hz ht hv) refl

parse_eth-put_eth :
    (dst src : MacAddr) (ethertype : ℕ) (more : List ℕ)
    → ethertype < 65536
    → parse_eth_header (put_eth_header [] dst src ethertype ++ more)
      ≡ inr (record { dst = dst; src = src; ethertype = ethertype }, 14)
unfolding parse_eth_header put_eth_header
parse_eth-put_eth dst src ethertype more h = ground arith

behind-put_pppoe :
    (dst src : MacAddr) (code id : ℕ) (payload padding : List ℕ)
    → known_code code ≡ true
    → id < 65536
    → length payload < 65536
    → discovery_behind
        (put_pppoe (put_eth_header [] dst src ethertype_discovery) code id payload ++ padding)
        (record { dst = dst; src = src; ethertype = ethertype_discovery })
        14
      ≡ packet_of
          (record { dst = dst; src = src; ethertype = ethertype_discovery })
          code
          id
          (walk_tags payload)
unfolding discovery_behind put_pppoe put_eth_header
behind-put_pppoe dst src code id payload padding hc hi hp =
    ground (arith, length-append payload padding, take-append payload padding)

put_pppoe-append :
    (dst src : MacAddr) (ethertype code id : ℕ) (payload padding : List ℕ)
    → put_pppoe (put_eth_header [] dst src ethertype) code id payload ++ padding
      ≡ put_eth_header [] dst src ethertype ++ (put_pppoe [] code id payload ++ padding)
unfolding put_pppoe put_eth_header
put_pppoe-append dst src ethertype code id payload padding = refl

-- Any discovery frame that `put_pppoe` lays out is parsed to its header and the tags of its payload.
pub parse-put_pppoe :
    (dst src : MacAddr) (code id : ℕ) (payload padding : List ℕ)
    → known_code code ≡ true
    → id < 65536
    → length payload < 65536
    → parse_discovery_frame
        (put_pppoe (put_eth_header [] dst src ethertype_discovery) code id payload ++ padding)
      ≡ packet_of
          (record { dst = dst; src = src; ethertype = ethertype_discovery })
          code
          id
          (walk_tags payload)
unfolding parse_discovery_frame
parse-put_pppoe dst src code id payload padding hc hi hp =
    rw
      (ap (discovery_from frame) parsed ∙ behind-put_pppoe dst src code id payload padding hc hi hp)
  where
    frame : List ℕ
    frame = put_pppoe (put_eth_header [] dst src ethertype_discovery) code id payload ++ padding

    parsed :
        parse_eth_header frame
        ≡ inr (record { dst = dst; src = src; ethertype = ethertype_discovery }, 14)
    parsed =
        rw (put_pppoe-append dst src ethertype_discovery code id payload padding)
          (parse_eth-put_eth dst src ethertype_discovery _ (omega arith))
