-- ===== src/Pppoe/Discovery/RoundTrip.antt =====
-- The frames that discovery builds are read back.
use zeronat.Base.{
  ℕ, suc, zero, ◌+◌, ◌<◌, ◌≡◌, List, [], ◌++◌, inl, inr, none, some, Option, ◌⊎◌, arith, length,
  length-append, append-nil, append_assoc, refl, ◌∙◌, sym, ap,
}
use zeronat.Pppoe.Discovery.Tags.{
  walk_tags, put_tag, Fields, tags, walk, Walk, Tags, keep_tag, next, done, Tag, after_next,
  tag_service_name, tag_ac_cookie, no_fields, tag_host_uniq,
}
use zeronat.Pppoe.Discovery.Packets.{
  put_optional, build_padr, padr_tags, packet_of, parse_discovery_frame, code_padr, known_code,
}
use zeronat.Pppoe.Discovery.Laws.{walk-put_tag, parse-put_pppoe, next_shrinks}
use zeronat.Pppoe.Frame.{MacAddr, Error}

-- The walk from a buffer with fields read so far.
walk_from : Fields → List ℕ → Walk
unfolding tags
walk_from f rest = walk (suc (length rest)) f (tags rest)

same_after :
    (more less : Fields → Tags → Walk) (f : Fields) (t : Tags)
    → ((g : Fields) (t' : Tags) → length t'.rest < length t.rest → more g t' ≡ less g t')
    → (r : Tags × Option (Error ⊎ Tag)) → next t ≡ r
    → after_next more f r ≡ after_next less f r
same_after more less f t same (t', none) e = refl
same_after more less f t same (t', some (inl x)) e = refl
same_after more less f t same (t', some (inr tag)) e =
    same (keep_tag f tag) t' (next_shrinks t t' tag e)

walk_same :
    (n m : ℕ) (f : Fields) (t : Tags)
    → length t.rest < n
    → length t.rest < m
    → walk n f t ≡ walk m f t
unfolding walk
walk_same zero m f t h k = absurd (omega arith)
walk_same (suc n) zero f t h k = absurd (omega arith)
walk_same (suc n) (suc m) f t h k =
    same_after (walk n) (walk m) f t (λ g t' s. walk_same n m g t' (omega arith) (omega arith))
      (next t) refl

length-put_tag : (ty : ℕ) (v : List ℕ) → length (put_tag [] ty v) ≡ 4 + length v
unfolding put_tag
length-put_tag ty v = omega arith

walk_from-put_tag :
    (f : Fields) (ty : ℕ) (v more : List ℕ)
    → 0 < ty
    → ty < 65536
    → length v < 65536
    → walk_from f (put_tag [] ty v ++ more)
      ≡ walk_from (keep_tag f (record { tag_type = ty; value = v })) more
unfolding walk_from tags
walk_from-put_tag f ty v more hz ht hv =
    walk-put_tag (length (put_tag [] ty v ++ more)) f ty v more hz ht hv
    ∙ walk_same _ _ _ _ (omega (arith, length-append (put_tag [] ty v) more, length-put_tag ty v))
        (omega arith)

-- An optional tag, kept where it is there.
keep_optional : Fields → ℕ → Option (List ℕ) → Fields
keep_optional f ty none = f
keep_optional f ty (some v) = keep_tag f (record { tag_type = ty; value = v })

put_optional-append :
    (out : List ℕ) (ty : ℕ) (v : Option (List ℕ))
    → put_optional out ty v ≡ out ++ put_optional [] ty v
unfolding put_optional put_tag
put_optional-append out ty none = sym (append-nil out)
put_optional-append out ty (some v) = simp (append_assoc)

length_optional : Option (List ℕ) → ℕ
length_optional none = 0
length_optional (some v) = length v

walk_from-put_optional :
    (f : Fields) (ty : ℕ) (v : Option (List ℕ)) (more : List ℕ)
    → 0 < ty
    → ty < 65536
    → length (put_optional [] ty v) < 65536
    → walk_from f (put_optional [] ty v ++ more) ≡ walk_from (keep_optional f ty v) more
unfolding put_optional keep_optional
walk_from-put_optional f ty none more hz ht hv = refl
walk_from-put_optional f ty (some v) more hz ht hv =
    walk_from-put_tag f ty v more hz ht (omega (arith, length-put_tag ty v))

padr_tags-append :
    (service_name : List ℕ) (c u : Option (List ℕ))
    → padr_tags service_name c u
      ≡ put_tag [] tag_service_name service_name
        ++ (put_optional [] tag_ac_cookie c ++ (put_optional [] tag_host_uniq u ++ []))
unfolding padr_tags
padr_tags-append service_name c u =
    put_optional-append (put_optional (put_tag [] tag_service_name service_name) tag_ac_cookie c)
      tag_host_uniq u
    ∙ ap (λ l. l ++ put_optional [] tag_host_uniq u)
        (put_optional-append (put_tag [] tag_service_name service_name) tag_ac_cookie c)
    ∙ simp (append_assoc, append-nil)

length-padr_tags :
    (service_name : List ℕ) (c u : Option (List ℕ))
    → length (padr_tags service_name c u)
      ≡ (4 + length service_name)
        + (length (put_optional [] tag_ac_cookie c) + length (put_optional [] tag_host_uniq u))
length-padr_tags service_name c u =
    ap length (padr_tags-append service_name c u) ∙ simp (length-append, append-nil, length-put_tag)

kept_fields :
    (c u : Option (List ℕ))
    → walk_from (keep_optional (keep_optional no_fields tag_ac_cookie c) tag_host_uniq u) []
      ≡ done (record { ac_name = none; ac_cookie = c; host_uniq = u })
unfolding walk_from keep_optional keep_tag walk next tags
kept_fields none none = refl
kept_fields none (some u) = refl
kept_fields (some c) none = refl
kept_fields (some c) (some u) = refl

-- The tags of a PADR: a service name, a cookie and a Host-Uniq.
walk_tags-padr_tags :
    (service_name : List ℕ) (ac_cookie host_uniq : Option (List ℕ))
    → length (padr_tags service_name ac_cookie host_uniq) < 65536
    → walk_tags (padr_tags service_name ac_cookie host_uniq)
      ≡ done (record { ac_name = none; ac_cookie = ac_cookie; host_uniq = host_uniq })
unfolding walk_tags walk_from keep_tag
walk_tags-padr_tags service_name ac_cookie host_uniq h =
    ap (walk_from no_fields) (padr_tags-append service_name ac_cookie host_uniq)
    ∙ walk_from-put_tag no_fields tag_service_name service_name _ (omega arith) (omega arith)
        (omega (arith, fits))
    ∙ walk_from-put_optional _ tag_ac_cookie ac_cookie _ (omega arith) (omega arith)
        (omega (arith, fits))
    ∙ walk_from-put_optional _ tag_host_uniq host_uniq [] (omega arith) (omega arith)
        (omega (arith, fits))
    ∙ kept_fields ac_cookie host_uniq
  where
    fits :
        length (padr_tags service_name ac_cookie host_uniq)
        ≡ (4 + length service_name)
          + (length (put_optional [] tag_ac_cookie ac_cookie)
              + length (put_optional [] tag_host_uniq host_uniq))
    fits = length-padr_tags service_name ac_cookie host_uniq

-- A PADR whose tags take fewer than 65536 bytes is parsed to its addresses, no session, the cookie
-- and the Host-Uniq that it was built with, whatever padding the Ethernet put behind it.
pub parse_discovery_frame-build_padr :
    (src ac : MacAddr) (service_name : List ℕ) (cookie uniq : Option (List ℕ)) (padding : List ℕ)
    → length (padr_tags service_name cookie uniq) < 65536
    → parse_discovery_frame (build_padr src ac service_name cookie uniq ++ padding)
      ≡ inr (record {
        eth = record { dst = ac; src = src; ethertype = 0x8863 };
        code = 0x19;
        session_id = 0;
        ac_name = none;
        ac_cookie = cookie;
        host_uniq = uniq;
      })
unfolding build_padr packet_of
parse_discovery_frame-build_padr src ac service_name cookie uniq padding h =
    parse-put_pppoe ac src code_padr 0 (padr_tags service_name cookie uniq) padding
      (unfold known_code in refl) (omega arith) h
    ∙ rw (walk_tags-padr_tags service_name cookie uniq h) refl
