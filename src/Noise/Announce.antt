-- ===== src/Noise/Announce.antt =====
-- src/noise.rs: the proof that an announcing peer has the private key of its identity. The random
-- bytes of a challenge are arguments, and a client id is its bytes.
use zeronat.Base.{
  ℕ, ◌≡◌, List, [], ◌∷◌, Option, none, some, Bool, true, false, if◌then◌else◌, replicate, beq_bytes,
  ap, sym, ◌∙◌,
}
use zeronat.Noise.Primitives.{Primitives, PrimitiveLaws}
use zeronat.Hash.Blake2s.{hmac_blake2s, ct_eq, blake2s}
use zeronat.Noise.Xx.{public_identity}
use zeronat.Noise.Preface.{proto_version}
use zeronat.Hash.Hmac.{ct_eq-beq_bytes}

-- "zeronat-peer-announce-proof-v1"
abbrev pub announce_proof_tag : List ℕ
announce_proof_tag =
    122 ∷ 101 ∷ 114 ∷ 111 ∷ 110 ∷ 97 ∷ 116 ∷ 45 ∷ 112 ∷ 101 ∷ 101 ∷ 114 ∷ 45 ∷ 97 ∷ 110 ∷ 110 ∷ 111
    ∷ 117 ∷ 110 ∷ 99 ∷ 101 ∷ 45 ∷ 112 ∷ 114 ∷ 111 ∷ 111 ∷ 102 ∷ 45 ∷ 118 ∷ 49 ∷ []

-- "tunnel-noise-psk-v1"
abbrev pub psk_tag : List ℕ
psk_tag =
    116 ∷ 117 ∷ 110 ∷ 110 ∷ 101 ∷ 108 ∷ 45 ∷ 110 ∷ 111 ∷ 105 ∷ 115 ∷ 101 ∷ 45 ∷ 112 ∷ 115 ∷ 107 ∷ 45
    ∷ 118 ∷ 49 ∷ []

unfoldable pub derive_psk : List ℕ → List ℕ
derive_psk secret = blake2s (psk_tag ∷ secret ∷ [])

unfoldable pub announce_mac : List ℕ → List ℕ → List ℕ → List ℕ → ℕ → List ℕ → List ℕ
announce_mac shared eph_pub nonce identity provides client_id = hmac_blake2s shared (
    announce_proof_tag
    ∷ (proto_version ∷ [])
    ∷ nonce
    ∷ eph_pub
    ∷ identity
    ∷ (provides ∷ [])
    ∷ client_id
    ∷ [])

pub record AnnounceChallenge : Type 0 where
  pub eph_pub : List ℕ
  pub nonce : List ℕ
  pub identity : List ℕ
  pub shared : List ℕ

-- `verify`
unfoldable pub verify : AnnounceChallenge → ℕ → List ℕ → List ℕ → Bool
verify x provides client_id mac =
    ct_eq (announce_mac x.shared x.eph_pub x.nonce x.identity provides client_id) mac

module _ (c : Primitives) where
  unfoldable pub announce_proof : List ℕ → List ℕ → List ℕ → ℕ → List ℕ → List ℕ
  announce_proof static_private eph_pub nonce provides client_id =
      announce_mac (c.x25519 static_private eph_pub) eph_pub nonce
        (public_identity c static_private) provides client_id

  -- `mint`: nothing for an identity whose shared secret is all zeros.
  unfoldable pub mint : List ℕ → List ℕ → List ℕ → Option AnnounceChallenge
  mint eph_priv nonce identity =
      let shared = c.x25519 eph_priv identity in
      if beq_bytes shared (replicate 32 0)
      then none
      else some (record {
        eph_pub = public_identity c eph_priv;
        nonce = nonce;
        identity = identity;
        shared = shared;
      })

taken : (b : Bool) (y x : AnnounceChallenge) → (if b then none else some y) ≡ some x → y ≡ x
taken true y x e = absurd cc
taken false y x e = cc

-- Let the primitives have the laws of their crates. A challenge that is minted for the identity of a
-- private key is passed by the proof of that key for the same byte and client id, and what passes it for
-- a byte and a client id is that proof and nothing else.
pub verify-announce_proof :
    (c : Primitives) (l : PrimitiveLaws c) (static_private eph_priv nonce client_id mac : List ℕ)
    (provides : ℕ) (x : AnnounceChallenge)
    → mint c eph_priv nonce (public_identity c static_private) ≡ some x
    → verify x provides client_id mac
      ≡ beq_bytes (announce_proof c static_private x.eph_pub x.nonce provides client_id) mac
unfolding mint verify announce_proof public_identity
verify-announce_proof c l static_private eph_priv nonce client_id mac provides x m =
    ct_eq-beq_bytes (announce_mac x.shared x.eph_pub x.nonce x.identity provides client_id) mac
    ∙ (λ i.
        beq_bytes (announce_mac (shared i) x.eph_pub x.nonce (identity i) provides client_id) mac)
  where
    eph_pub : List ℕ
    eph_pub = c.x25519 eph_priv c.base_point

    own : List ℕ
    own = c.x25519 static_private c.base_point

    minted : AnnounceChallenge
    minted = record {
      eph_pub = eph_pub;
      nonce = nonce;
      identity = own;
      shared = c.x25519 eph_priv own;
    }

    is : minted ≡ x
    is = taken (beq_bytes (c.x25519 eph_priv own) (replicate 32 0)) minted x m

    shared : x.shared ≡ c.x25519 static_private x.eph_pub
    shared =
        ap (λ (z : AnnounceChallenge). z.shared) (sym is)
        ∙ l.x25519_comm eph_priv static_private
        ∙ ap (λ (z : AnnounceChallenge). c.x25519 static_private z.eph_pub) is

    identity : x.identity ≡ own
    identity = ap (λ (z : AnnounceChallenge). z.identity) (sym is)
