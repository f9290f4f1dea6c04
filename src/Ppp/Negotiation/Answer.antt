-- ===== src/Ppp/Negotiation/Answer.antt =====
-- The reply to a Configure-Request against a reference in two passes: judge every option, then
-- keep the options of the worst verdict.
use mathlib.Core.List.{foldl}
use zeronat.Ppp.Wire.Emit.{render_options}
use zeronat.Base.{
  ℕ, ◌≤◌, ◌≡◌, refl, ap, ◌∙◌, Bool, true, false, List, [], ◌∷◌, ◌++◌, arith, ltb, leb, ◌==◌,
  if◌then◌else◌, append_assoc, append-nil, All, IsByte, sym,
}
use zeronat.Ppp.Wire.{Code, configure_ack, code_u8, OptionVal}
use zeronat.Ppp.Options.{done}
use zeronat.Ppp.Options.Scan.{scan, step, parse_options-scan, render-scan}
use zeronat.Ppp.Fsm.{
  Verdict, Protocol, OptionFsm, Reply, max_failure, verdict_reply, receive_option, collect_reply,
}

abbrev pub worse : Code → Code → Code
worse c d = if ltb (code_u8 c) (code_u8 d) then d else c

abbrev pub worst : Code → List (Code × OptionVal) → Code
worst c [] = c
worst c ((d, o) ∷ rest) = worst (worse c d) rest

abbrev pub with_code : Code → List (Code × OptionVal) → List OptionVal
with_code c [] = []
with_code c ((d, o) ∷ rest) =
    let kept = with_code c rest in if code_u8 d == code_u8 c then o ∷ kept else kept

worst-ge : (c : Code) (l : List (Code × OptionVal)) → code_u8 c ≤ code_u8 (worst c l)
worst-ge c [] = omega arith
worst-ge c ((d, o) ∷ rest) = ground (arith, worst-ge (worse c d) rest)

code_u8-injective : (c d : Code) → code_u8 c ≡ code_u8 d → c ≡ d
code_u8-injective c d e = ground arith

nothing_kept : (b : Bool) (kept : List OptionVal) → ((if b then [] else []) ++ kept) ≡ kept
nothing_kept true kept = refl
nothing_kept false kept = refl

module _ {P : Type 0} (pr : Protocol P) where
  -- The verdicts on the options of a request, each under the protocol state the ones before left.
  unfoldable pub answers : Bool → P → List OptionVal → List (Code × OptionVal)
  answers exhausted p [] = []
  answers exhausted p (o ∷ os) =
      let (p', verdict) = pr.peer_option_received p o.code o.body in
      let (code, body) = verdict_reply exhausted verdict o.body in
      (code, record { code = o.code; body = body }) ∷ answers exhausted p' os

  unfoldable pub proto_after : P → List OptionVal → P
  proto_after p [] = p
  proto_after p (o ∷ os) = proto_after (pr.peer_option_received p o.code o.body).0 os

  abbrev one_answer : Bool → P → OptionVal → Code × List ℕ
  one_answer exhausted p o =
      verdict_reply exhausted (pr.peer_option_received p o.code o.body).1 o.body

  keep_worst :
      (c d w : Code) (opts rest : List OptionVal) (o : OptionVal)
      → code_u8 (worse c d) ≤ code_u8 w
      → ((if code_u8 w == code_u8 (worse c d)
            then (if code_u8 (worse c d) == code_u8 d
                then (if ltb (code_u8 c) (code_u8 d) then [] else opts) ++ (o ∷ [])
                else (if ltb (code_u8 c) (code_u8 d) then [] else opts))
            else [])
          ++ rest)
        ≡ ((if code_u8 w == code_u8 c then opts else [])
            ++ (if code_u8 d == code_u8 w then o ∷ rest else rest))
  keep_worst c d w opts rest o h = ground (arith, append_assoc opts (o ∷ []) rest)

  receive_option-foldl :
      (exhausted : Bool) (r : Reply P) (os : List OptionVal)
      → let w = worst r.code (answers exhausted r.proto os) in
        foldl (step (receive_option pr exhausted)) r os ≡ record {
          proto = proto_after r.proto os;
          code = w;
          opts =
              (if code_u8 w == code_u8 r.code then r.opts else [])
              ++ with_code w (answers exhausted r.proto os);
        }
  unfolding answers proto_after receive_option
  receive_option-foldl exhausted r [] = ground (arith, append-nil r.opts)
  receive_option-foldl exhausted r (o ∷ os) =
      let (d, body) = one_answer exhausted r.proto o in
      let rest = answers exhausted (pr.peer_option_received r.proto o.code o.body).0 os in
      let w = worst (worse r.code d) rest in
      receive_option-foldl exhausted (receive_option pr exhausted r o.code o.body) os
      ∙ ap
          (λ (kept : List OptionVal). record {
            proto = proto_after r.proto (o ∷ os);
            code = w;
            opts = kept;
          })
          (keep_worst r.code d w r.opts (with_code w rest) (record { code = o.code; body = body })
            (worst-ge (worse r.code d) rest))

  -- The reply to a request is that of two separate passes: its code is the worst verdict on any of
  -- its options, and it holds the options with that verdict, in their order.
  pub collect_reply-worst :
      (f : OptionFsm P) (opts_in : List ℕ)
      → let start = pr.peer_options_start f.proto in
        let os = (scan opts_in).0 in
        let judged = answers (leb max_failure f.naks_sent) start os in
        let w = worst configure_ack judged in
        collect_reply pr f opts_in ≡ (
          record { proto = proto_after start os; code = w; opts = with_code w judged },
          (scan opts_in).1,
        )
  unfolding collect_reply
  collect_reply-worst f opts_in =
      parse_options-scan (receive_option pr (leb max_failure f.naks_sent)) _ opts_in
      ∙ ap (λ r. (r, (scan opts_in).1))
          (receive_option-foldl (leb max_failure f.naks_sent) _ (scan opts_in).0
            ∙ ap
                (λ (kept : List OptionVal). record {
                  proto = proto_after (pr.peer_options_start f.proto) (scan opts_in).0;
                  code = worst configure_ack (
                      answers (leb max_failure f.naks_sent) (pr.peer_options_start f.proto)
                        (scan opts_in).0);
                  opts = kept;
                })
                (nothing_kept _ _))

  acked_body :
      (exhausted : Bool) (v : Verdict) (body : List ℕ)
      → (verdict_reply exhausted v body).0 ≡ configure_ack
      → (verdict_reply exhausted v body).1 ≡ body
  unfolding verdict_reply
  acked_body exhausted v body e = ground arith

  answer_rank :
      (exhausted : Bool) (v : Verdict) (body : List ℕ)
      → 2 ≤ code_u8 (verdict_reply exhausted v body).0
  unfolding verdict_reply
  answer_rank exhausted v body = ground arith

  -- If every option of a request is acknowledged, the reply holds the request's own options.
  acked_options :
      (exhausted : Bool) (p : P) (os : List OptionVal)
      → code_u8 (worst configure_ack (answers exhausted p os)) ≡ 2
      → with_code configure_ack (answers exhausted p os) ≡ os
  unfolding answers
  acked_options exhausted p [] e = refl
  acked_options exhausted p (o ∷ os) e =
      let (p', v) = pr.peer_option_received p o.code o.body in
      ground (
        arith,
        answer_rank exhausted v o.body,
        acked_body exhausted v o.body,
        code_u8-injective (verdict_reply exhausted v o.body).0 configure_ack,
        worst-ge (worse configure_ack (verdict_reply exhausted v o.body).0)
            (answers exhausted p' os),
        acked_options exhausted p' os,
      )

  -- A Configure-Ack to a well-formed request carries the bytes of the request's options unchanged.
  pub acked_verbatim :
      (f : OptionFsm P) (opts_in : List ℕ)
      → All IsByte opts_in
      → (collect_reply pr f opts_in).1 ≡ done
      → (collect_reply pr f opts_in).0.code ≡ configure_ack
      → render_options (collect_reply pr f opts_in).0.opts ≡ opts_in
  acked_verbatim f opts_in bytes ended acked =
      let start = pr.peer_options_start f.proto in
      let os = (scan opts_in).0 in
      let judged = answers (leb max_failure f.naks_sent) start os in
      let reply = collect_reply-worst f opts_in in
      let w : worst configure_ack judged ≡ configure_ack = sym (ap (λ r. r.0.code) reply) ∙ acked in
      ap (λ r. render_options r.0.opts) reply
      ∙ ap (λ c. render_options (with_code c judged)) w
      ∙ ap render_options (acked_options (leb max_failure f.naks_sent) start os (ap code_u8 w))
      ∙ render-scan opts_in bytes (sym (ap (λ r. r.1) reply) ∙ ended)
