-- ===== src/Proto/ArmReads.antt =====
-- Each arm of `decode` reads the body that `encode` writes for its message.
use zeronat.Base.{ℕ, Option, none, some, true, false, List, [], ◌∷◌, ◌++◌, arith}
use zeronat.Proto.Types.{
  PathStatus, direct, relay, path_status_byte, PeerStatus, accepted, unknown_peer, peer_offline,
  not_provided, peer_busy, server_failure, peer_status_byte, PeerRefuseReason, malformed_identity,
  failed_proof, challenge_failed, identity_claimed, refuse_reason_byte,
}
use zeronat.Proto.Encoded.{IsArray, IsStr, str_bytes}
use zeronat.Proto.Reads.{Reads, Reads-ret, index-Reads, flag-Reads}
use zeronat.Proto.PartReads.{Reads-last, get_str-Reads, arr32-Reads}
use zeronat.Proto.Ends.{Ends, Ends-ret, Ends-bind, Ends-last, Ends-need, Ends-at_end}
use zeronat.Proto.Parts.{
  get_refuse_reason, take_client_credential, get_path_status, get_peer_status, secret_if,
}

abbrev pub IsSecret : Option (List ℕ) → Type 0
IsSecret none = Unit
IsSecret (some s) = IsArray 32 s

abbrev pub secret_bytes : Option (List ℕ) → List ℕ
secret_bytes none = 0 ∷ []
secret_bytes (some s) = 1 ∷ s

abbrev pub credential_bytes : List ℕ → Option (List ℕ) → List ℕ
credential_bytes client_id secret = str_bytes client_id ++ secret_bytes secret

pub get_peer_status-Reads : (s : PeerStatus) → Reads get_peer_status (peer_status_byte s ∷ []) s
unfolding get_peer_status
get_peer_status-Reads accepted = Reads-last _ (index-Reads _ 0 (omega arith)) (Reads-ret accepted)
get_peer_status-Reads unknown_peer =
    Reads-last _ (index-Reads _ 1 (omega arith)) (Reads-ret unknown_peer)
get_peer_status-Reads peer_offline =
    Reads-last _ (index-Reads _ 2 (omega arith)) (Reads-ret peer_offline)
get_peer_status-Reads not_provided =
    Reads-last _ (index-Reads _ 3 (omega arith)) (Reads-ret not_provided)
get_peer_status-Reads peer_busy = Reads-last _ (index-Reads _ 4 (omega arith)) (Reads-ret peer_busy)
get_peer_status-Reads server_failure =
    Reads-last _ (index-Reads _ 5 (omega arith)) (Reads-ret server_failure)

pub get_refuse_reason-Reads :
    (r : PeerRefuseReason) → Reads get_refuse_reason (refuse_reason_byte r ∷ []) r
unfolding get_refuse_reason
get_refuse_reason-Reads malformed_identity =
    Reads-last _ (index-Reads _ 0 (omega arith)) (Reads-ret malformed_identity)
get_refuse_reason-Reads failed_proof =
    Reads-last _ (index-Reads _ 1 (omega arith)) (Reads-ret failed_proof)
get_refuse_reason-Reads challenge_failed =
    Reads-last _ (index-Reads _ 2 (omega arith)) (Reads-ret challenge_failed)
get_refuse_reason-Reads identity_claimed =
    Reads-last _ (index-Reads _ 3 (omega arith)) (Reads-ret identity_claimed)

pub get_path_status-Reads : (s : PathStatus) → Reads get_path_status (path_status_byte s ∷ []) s
unfolding get_path_status
get_path_status-Reads direct = Reads-last _ (index-Reads _ 0 (omega arith)) (Reads-ret direct)
get_path_status-Reads relay = Reads-last _ (index-Reads _ 1 (omega arith)) (Reads-ret relay)

pub take_client_credential-Ends :
    (c : List ℕ) (s : Option (List ℕ))
    → IsStr c
    → IsSecret s
    → Ends take_client_credential (credential_bytes c s) (c, s)
unfolding take_client_credential secret_if
take_client_credential-Ends c none hc h = Ends-bind _ (get_str-Reads c hc) (
    Ends-need _ (omega arith) (
      Ends-bind _ (flag-Reads _ false)
        (Ends-last _ (Reads-ret none) (Ends-at_end _ (Ends-ret (c, none))))))
take_client_credential-Ends c (some s) hc h = Ends-bind _ (get_str-Reads c hc) (
    Ends-need _ (omega arith) (
      Ends-bind _ (flag-Reads _ true) (
        Ends-last _ (Reads-last _ (arr32-Reads _ s h) (Reads-ret (some s)))
          (Ends-at_end _ (Ends-ret (c, some s))))))
