-- ===== src/Ppp/Chap.antt =====
-- src/pppoe/auth.rs: CHAP with MD5 (RFC 1994). The digest is that of the `md-5` crate, which is not
-- part of this code: it is the parameter `md5`, from the hashed bytes to the 16 bytes of the digest.
pub mod Laws
use zeronat.Base.{
  ℕ, ◌+◌, ◌%◌, Option, none, some, List, ◌∷◌, ◌++◌, ltb, leb, ◌==◌, ◌||◌, if◌then◌else◌, length,
  take, drop, get_or, u16_be, be16, Bool, true, false,
}

pub data ChapState : Type 0 where
  idle responded success failure : ChapState

pub data ChapError : Type 0 where
  truncated bad_length : ChapError

pub data ChapResult : Type 0 where
  ok : Option (List ℕ) → ChapResult
  err : ChapError → ChapResult

abbrev pub is_success : ChapState → Bool
is_success success = true
is_success _ = false

-- `[CHAP_RESPONSE][id][length:2][16][value][name]` behind the protocol field.
unfoldable pub build_response : ℕ → List ℕ → List ℕ → List ℕ
build_response id response user =
    0xc2 ∷ 0x23 ∷ 2 ∷ id ∷ be16 ((4 + 1 + 16 + length user) % 65536) ++ 16 ∷ response ++ user

module _ (md5 : List ℕ → List ℕ) where
  unfoldable pub chap_md5_response : ℕ → List ℕ → List ℕ → List ℕ
  chap_md5_response id secret challenge = md5 ((id ∷ secret) ++ challenge)

  -- A Challenge: the value must lie inside what the length field declares.
  on_challenge : ChapState → List ℕ → ℕ → ℕ → List ℕ → List ℕ → ChapState × ChapResult
  unfolding build_response chap_md5_response
  on_challenge s pkt id len user secret =
      let value_end = 7 + get_or pkt 6 0 in
      if leb (length pkt) 6
      then (s, err truncated)
      else if ltb (2 + len) value_end
      then (s, err bad_length)
      else if ltb (length pkt) value_end
      then (s, err truncated)
      else (
        responded,
        ok (
            some (
              build_response id (chap_md5_response id secret (take (get_or pkt 6 0) (drop 7 pkt)))
                user)),
      )

  -- The fixed header is read byte by byte, so any packet below 6 bytes is `Truncated`.
  unfoldable pub handle : ChapState → List ℕ → List ℕ → List ℕ → ChapState × ChapResult
  unfolding on_challenge
  handle s pkt user secret =
      let code = get_or pkt 2 0 in
      let id = get_or pkt 3 0 in
      let len = u16_be (get_or pkt 4 0) (get_or pkt 5 0) in
      if ltb (length pkt) 6
      then (s, err truncated)
      else if ltb len 4 || ltb (length pkt) (2 + len)
      then (s, err bad_length)
      else if code == 1
      then on_challenge s pkt id len user secret
      else if code == 3
      then (success, ok none)
      else if code == 4
      then (failure, ok none)
      else (s, ok none)
