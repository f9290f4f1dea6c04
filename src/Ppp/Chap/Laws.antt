-- ===== src/Ppp/Chap/Laws.antt =====
-- CHAP against RFC 1994.
use zeronat.Base.{
  ◌+◌, append_assoc, ℕ, List, ◌∷◌, ◌++◌, ◌≡◌, ◌<◌, arith, length-append, take-append, be16, length,
  some,
}
use zeronat.Ppp.Chap.{ChapState, handle, build_response, responded, ok}

-- The bytes of a Challenge with a value and the name of the peer.
abbrev pub challenge_packet : ℕ → List ℕ → List ℕ → List ℕ
challenge_packet id value name =
    0xc2 ∷ 0x23 ∷ 1 ∷ id ∷ be16 (5 + length value + length name) ++ ((length value ∷ value) ++ name)

-- A Challenge that fits its length fields, whatever bytes are behind it, is answered with the
-- digest of the identifier, the secret and the value, under the identifier of the Challenge.
pub handle-challenge_packet :
    (md5 : List ℕ → List ℕ) (s : ChapState) (id : ℕ) (value name trailing user secret : List ℕ)
    → length value < 256
    → 5 + length value + length name < 65536
    → handle md5 s (challenge_packet id value name ++ trailing) user secret
      ≡ (responded, ok (some (build_response id (md5 ((id ∷ secret) ++ value)) user)))
unfolding handle
handle-challenge_packet md5 s id value name trailing user secret hv hl = ground (
  arith,
  append_assoc value name trailing,
  length-append value (name ++ trailing),
  length-append name trailing,
  take-append value (name ++ trailing),
)
