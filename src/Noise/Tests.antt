-- ===== src/Noise/Tests.antt =====
-- Primitives with the laws, and runs on which the theorems apply.
use zeronat.Base.{
  ℕ, ◌+◌, ◌≡◌, ◌==◌, List, [], ◌∷◌, none, some, true, false, if◌then◌else◌, get_or, replicate, inl,
  inr, refl, arith, beq_bytes_refl, drop, beq_bytes,
}
use zeronat.Noise.Primitives.{Primitives, PrimitiveLaws}
use zeronat.Noise.Refinement.{
  Distinct, accepts, run_window, check_and_mark-Refines, with_next, run_window-Distinct,
  empty_window-Refines,
}
use zeronat.Noise.Transport.{StatelessNoise, seal, open_in_place}
use zeronat.Noise.Replay.{top, admits, Refines}
use zeronat.Noise.Claim.{
  claim_request, Claim, claim_responder, claim_finish, claim_responder-claim_request,
}
use zeronat.Noise.Exchange.{exchange, exchange_agrees}
use zeronat.Noise.Preface.{find_client, Credential, client_selector}
use zeronat.Noise.Window.{ReplayWindow, check_and_mark, empty_window}
use zeronat.Noise.Xx.{new, public_identity}
use zeronat.Noise.Symmetric.{keys, Error, aead_seal}
use zeronat.Noise.Delivery.{open_in_place-seal}
use zeronat.Noise.Announce.{AnnounceChallenge, verify, announce_proof, verify-announce_proof, mint}
use zeronat.Noise.Stream.{
  NoiseReader, fill, NoiseWriter, send, after_len, read_until, send_chunks, frame,
}
use zeronat.Noise.Sending.{Delivered, send-Delivered}
use zeronat.Noise.Resume.{fill-resumed}
use zeronat.Noise.Frames.{Chunks}
use zeronat.Hash.Stream.{concat}

-- Keys that add up, and a tag with the first byte of the key.
abbrev pub plain : Primitives
plain = record {
  x25519 = λ a p. (get_or a 0 0 + get_or p 0 0) ∷ replicate 31 0;
  base_point = replicate 32 0;
  encrypt = λ k n ad pt. (pt, get_or k 0 0 ∷ replicate 15 0);
  decrypt = λ k n ad body tag. if get_or tag 0 0 == get_or k 0 0 then some body else none;
}

pub plain_laws : PrimitiveLaws plain
plain_laws = record {
  x25519_comm = λ a b i. (same (get_or a 0 0) (get_or b 0 0) i ∷ replicate 31 0);
  length-x25519 = λ a p. refl;
  length_tag = λ k n ad pt. refl;
  length_text = λ k n ad pt. refl;
  decrypt-encrypt = λ k n ad pt. ground arith;
}
  where
    same : (a b : ℕ) → a + (b + 0) ≡ b + (a + 0)
    same a b = omega arith

abbrev key : ℕ → List ℕ
key n = n ∷ []

exchange_agrees_example :
    let x =
      exchange plain
        (new plain true (key 1) [] (key 2))
        (new plain false (key 3) [] (key 4))
        (key 7)
        (key 8)
        (key 9) in
    let ours = keys x.initiator.ss x.initiator.initiator in
    let theirs = keys x.responder.ss x.responder.initiator in
    (x.read_one ≡ inr (key 7))
    × (x.read_two ≡ inr (key 8))
    × (x.read_three ≡ inr (key 9))
    × (x.initiator.rs ≡ some (public_identity plain (key 3)))
    × (x.responder.rs ≡ some (public_identity plain (key 1)))
    × (ours.send_key ≡ theirs.recv_key)
    × (ours.recv_key ≡ theirs.send_key)
exchange_agrees_example =
    exchange_agrees plain plain_laws (key 1) (key 2) (key 3) (key 4) [] (key 7) (key 8) (key 9)

abbrev one : ReplayWindow
one = record { highest = some 5; seen = 1 }

one-Refines : Refines one (5 ∷ [])
unfolding top check_and_mark with_next empty_window admits
one-Refines = (check_and_mark-Refines empty_window [] 5 empty_window-Refines).1

check_and_mark-Refines_example :
    (accepts (check_and_mark one 3).1 ≡ admits (5 ∷ []) 3)
    × Refines (check_and_mark one 3).0 (with_next (5 ∷ []) 3)
check_and_mark-Refines_example = check_and_mark-Refines one (5 ∷ []) 3 one-Refines

run_window-Distinct_example : Distinct (run_window empty_window [] (5 ∷ 3 ∷ 5 ∷ 200 ∷ 3 ∷ []))
run_window-Distinct_example = run_window-Distinct (5 ∷ 3 ∷ 5 ∷ 200 ∷ 3 ∷ [])

abbrev alice : StatelessNoise
alice = record { send_key = key 1; recv_key = key 2; send_nonce = 9; recv_window = one }

abbrev bob : StatelessNoise
bob = record { send_key = key 2; recv_key = key 1; send_nonce = 0; recv_window = one }

open_in_place-seal_example :
    (datagram : List ℕ) × (seal plain alice (key 7)
      ≡ (record alice { send_nonce = 10 }, inr datagram))
    × (let (r', opened) = open_in_place plain bob datagram in
        (opened ≡ inr (key 7))
        × Refines r'.recv_window (9 ∷ 5 ∷ [])
        × ((e : Error) × ((open_in_place plain r' datagram).1 ≡ inl e)))
open_in_place-seal_example =
    open_in_place-seal plain plain_laws alice bob (5 ∷ []) (key 7) refl (omega arith) one-Refines
      (unfold admits top in refl)

abbrev credential : Credential
credential = record { selector = client_selector (key 6); client_id = key 65; psk = key 6 }

find_credential : find_client (credential ∷ []) (client_selector (key 6)) ≡ some credential
unfolding find_client
find_credential = rw (beq_bytes_refl (client_selector (key 6))) refl

claim_responder-claim_request_example :
    let ask = claim_request plain (key 6) (key 2) 77 (replicate 32 1) in
    (claim : Claim) × (ours : StatelessNoise) × (claim_responder plain
        (credential ∷ [])
        (key 4)
        (key 8)
        ask.preface
        ask.msg1
      ≡ inr claim)
    × (claim.client_id ≡ key 65)
    × (claim.id ≡ 77)
    × (claim.capability ≡ replicate 32 1)
    × (claim_finish plain ask.state (key 2) claim.msg2 ≡ inr (ours, key 8))
    × (ours.send_key ≡ claim.transport.recv_key)
    × (ours.recv_key ≡ claim.transport.send_key)
claim_responder-claim_request_example =
    claim_responder-claim_request plain plain_laws (credential ∷ []) credential (key 2) (key 4)
      (replicate 32 1) (key 8) 77 find_credential refl (omega arith)

abbrev writer : NoiseWriter
writer = record { send_key = key 1; send_n = 4 }

abbrev reader : NoiseReader
reader = record { recv_key = key 1; recv_n = 4; len = []; have_len = false; size = 0; body = [] }

abbrev written : List ℕ
written = 0 ∷ 17 ∷ 7 ∷ 1 ∷ replicate 15 0

fill-resumed_example :
    ((fill plain reader ((0 ∷ []) ∷ [])).1 ≡ [])
    × (fill plain reader ((0 ∷ []) ∷ drop 1 written ∷ [])
        ≡ fill plain (fill plain reader ((0 ∷ []) ∷ [])).0 (drop 1 written ∷ []))
fill-resumed_example =
    fill-resumed plain reader ((0 ∷ []) ∷ []) (drop 1 written ∷ [])
      (unfold fill after_len read_until in refl)

send-Delivered_example :
    Delivered plain 1
      (send plain writer (key 7)).0
      reader
      ((0 ∷ []) ∷ drop 1 written ∷ [])
      (key 7)
      []
send-Delivered_example =
    send-Delivered plain plain_laws writer reader (key 7) [] ((0 ∷ []) ∷ drop 1 written ∷ [])
      (record { key = refl; count = refl; no_len = refl; no_body = refl }) (unfold Chunks in tt)
      (unfold concat send send_chunks frame aead_seal in refl)

abbrev challenge : AnnounceChallenge
challenge = record {
  eph_pub = public_identity plain (key 3);
  nonce = key 9;
  identity = public_identity plain (key 2);
  shared = 5 ∷ replicate 31 0;
}

verify-announce_proof_example :
    verify challenge 1 (key 65) (key 0)
    ≡ beq_bytes (announce_proof plain (key 2) challenge.eph_pub (key 9) 1 (key 65)) (key 0)
verify-announce_proof_example =
    verify-announce_proof plain plain_laws (key 2) (key 3) (key 9) (key 65) (key 0) 1 challenge
      (unfold mint public_identity in refl)
