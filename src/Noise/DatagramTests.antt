-- ===== src/Noise/DatagramTests.antt =====
-- Datagrams between two sides, with the primitives of the other runs.
use zeronat.Base.{ℕ, ◌≡◌, List, [], ◌∷◌, some, inr, refl, arith, drop, replicate, ◌++◌}
use zeronat.Noise.Transport.{StatelessNoise, open_in_place}
use zeronat.Noise.Replay.{top, admits}
use zeronat.Noise.Window.{empty_window}
use zeronat.Noise.Refinement.{empty_window-Refines}
use zeronat.Noise.Tests.{plain, plain_laws}
use zeronat.Noise.Datagram.{DgramTx, send_datagram, queued, recv, data_frame}
use zeronat.Noise.DatagramLaws.{recv-send_datagram}
use zeronat.Noise.DatagramRuns.{Receives, recv-Receives}

abbrev sender : DgramTx
sender = record {
  tag = 9;
  noise = record {
    send_key = 1 ∷ [];
    recv_key = 2 ∷ [];
    send_nonce = 0;
    recv_window = empty_window;
  };
}

abbrev receiver : StatelessNoise
receiver = record {
  send_key = 2 ∷ [];
  recv_key = 1 ∷ [];
  send_nonce = 0;
  recv_window = empty_window;
}

-- A datagram with the first nonce and the data 7, as the sender seals it.
abbrev written : List ℕ
written = replicate 8 0 ++ (0 ∷ 7 ∷ 1 ∷ replicate 15 0)

recv-send_datagram_example :
    (pkt : List ℕ) × ((send_datagram plain queued sender (7 ∷ [])).1 ≡ inr (some pkt))
    × (let out = recv plain receiver (drop 5 pkt ∷ (3 ∷ []) ∷ []) in
        (out.1 ≡ (3 ∷ []) ∷ [])
        × (out.2 ≡ some (data_frame (7 ∷ [])))
        × (recv plain out.0 (drop 5 pkt ∷ (3 ∷ []) ∷ [])
            ≡ recv plain (open_in_place plain out.0 (drop 5 pkt)).0 ((3 ∷ []) ∷ [])))
recv-send_datagram_example =
    recv-send_datagram plain plain_laws sender receiver [] (7 ∷ []) ((3 ∷ []) ∷ []) refl
      (omega arith) empty_window-Refines (unfold admits top in refl)

recv-Receives_example :
    let out = recv plain receiver ((3 ∷ []) ∷ written ∷ (4 ∷ []) ∷ []) in
    Receives plain receiver ((3 ∷ []) ∷ written ∷ (4 ∷ []) ∷ []) out.0 out.1 out.2
recv-Receives_example = recv-Receives plain receiver ((3 ∷ []) ∷ written ∷ (4 ∷ []) ∷ [])
