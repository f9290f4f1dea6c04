-- ===== src/Pppoe/Discovery/Tests.antt =====
-- A recorded dial on which the theorems of discovery apply.
use zeronat.Base.{
  ℕ, List, [], ◌∷◌, ◌++◌, ◌≡◌, ◌≤◌, refl, inr, none, some, Option, arith, length, inl,
}
use zeronat.Pppoe.Discovery.Safety.{Event, run, tick, step, frame, Confirmed, Received}
use zeronat.Pppoe.Discovery.Retry.{rounds, resends, rounds_unanswered, Awaits}
use zeronat.Pppoe.Discovery.Packets.{
  parse_discovery_frame, build_padr, padr_tags, build_padi, put_optional, discovery_behind,
  packet_of, known_code,
}
use zeronat.Pppoe.Frame.{MacAddr, parse_eth_header, octets}
use zeronat.Pppoe.Discovery.Tags.{walk_tags, put_tag, walk, tags, next, keep_tag}
use zeronat.Pppoe.Discovery.Machine.{
  Session, start, on_frame, new_discovery, on_tick, dead, on_packet, on_pado, on_pads, tick_stage,
  padi_of, mac_eq, from_chosen, host_uniq_matches, established,
}
use zeronat.Pppoe.Discovery.RoundTrip.{parse_discovery_frame-build_padr}
use zeronat.Pppoe.Discovery.Established.{run-Confirmed}

abbrev our : MacAddr
our = record { o0 = 0xfe; o1 = 0xee; o2 = 0x13; o3 = 0xac; o4 = 0xc4; o5 = 0x74 }

abbrev ac_addr : MacAddr
ac_addr = record { o0 = 0x70; o1 = 0x7b; o2 = 0xe8; o3 = 0x74; o4 = 0x22; o5 = 0x17 }

abbrev uniq : Option (List ℕ)
uniq = some (0x95 ∷ 0x16 ∷ 0 ∷ 0 ∷ [])

abbrev pado : List ℕ
pado =
    0xfe ∷ 0xee ∷ 0x13 ∷ 0xac ∷ 0xc4 ∷ 0x74 ∷ 0x70 ∷ 0x7b ∷ 0xe8 ∷ 0x74 ∷ 0x22 ∷ 0x17 ∷ 0x88 ∷ 0x63
    ∷ 0x11 ∷ 0x07 ∷ 0x00 ∷ 0x00 ∷ 0x00 ∷ 0x0c ∷ 0x01 ∷ 0x01 ∷ 0x00 ∷ 0x00 ∷ 0x01 ∷ 0x03 ∷ 0x00
    ∷ 0x04 ∷ 0x95 ∷ 0x16 ∷ 0x00 ∷ 0x00 ∷ []

abbrev pads : List ℕ
pads =
    0xfe ∷ 0xee ∷ 0x13 ∷ 0xac ∷ 0xc4 ∷ 0x74 ∷ 0x70 ∷ 0x7b ∷ 0xe8 ∷ 0x74 ∷ 0x22 ∷ 0x17 ∷ 0x88 ∷ 0x63
    ∷ 0x11 ∷ 0x65 ∷ 0x1b ∷ 0x3b ∷ 0x00 ∷ 0x0c ∷ 0x01 ∷ 0x01 ∷ 0x00 ∷ 0x00 ∷ 0x01 ∷ 0x03 ∷ 0x00
    ∷ 0x04 ∷ 0x95 ∷ 0x16 ∷ 0x00 ∷ 0x00 ∷ []

abbrev dial : List Event
dial = tick ∷ frame pado ∷ tick ∷ frame pads ∷ []

abbrev bras_session : Session
bras_session = record { ac_mac = ac_addr; session_id = 0x1b3b }

Long : List ℕ → Type 0
Long bytes = 20 ≤ length bytes

dialled-established :
    (run (start (new_discovery our [] uniq 3 4)).0 dial).state ≡ established bras_session
unfolding run step on_frame on_tick on_packet on_pado on_pads tick_stage start new_discovery
    parse_discovery_frame parse_eth_header discovery_behind packet_of walk_tags walk tags next
    keep_tag known_code mac_eq octets from_chosen host_uniq_matches
dialled-established = refl

run-Confirmed_example :
    let d = run (start (new_discovery our [] uniq 3 4)).0 dial in
    Confirmed Long our uniq d.ac_mac d.ac_cookie bras_session
run-Confirmed_example =
    run-Confirmed Long our [] uniq 3 4 dial bras_session
      (unfold Long Received in (tt, (omega arith, (tt, (omega arith, tt))))) dialled-established

rounds_unanswered_example :
    ((rounds 3 2 (start (new_discovery our [] uniq 2 3)).0).0.state ≡ dead)
    × ((rounds 3 2 (start (new_discovery our [] uniq 2 3)).0).1
        ≡ resends 2 1 (build_padi our [] uniq))
rounds_unanswered_example =
    rounds_unanswered 2 1 (start (new_discovery our [] uniq 2 3)).0 (build_padi our [] uniq)
      (unfold Awaits start new_discovery padi_of in inl (refl, refl))
      (unfold start new_discovery in refl) (unfold start new_discovery in refl)
      (unfold start new_discovery in omega arith) (unfold start new_discovery in refl)
      (unfold start new_discovery in omega arith)

parse_discovery_frame-build_padr_example :
    parse_discovery_frame (build_padr our ac_addr [] none uniq ++ (0 ∷ 0 ∷ []))
    ≡ inr (record {
      eth = record { dst = ac_addr; src = our; ethertype = 0x8863 };
      code = 0x19;
      session_id = 0;
      ac_name = none;
      ac_cookie = none;
      host_uniq = uniq;
    })
parse_discovery_frame-build_padr_example =
    parse_discovery_frame-build_padr our ac_addr [] none uniq (0 ∷ 0 ∷ [])
      (unfold padr_tags put_tag put_optional in omega arith)
