-- ===== src/Noise/Symmetric.antt =====
-- src/noise.rs: the sealing of one message and the symmetric state of a handshake. A key and a hash
-- are lists of bytes, a nonce is a u64.
use zeronat.Base.{
  ℕ, zero, suc, ◌+◌, ◌-◌, ◌/◌, ◌%◌, ◌^◌, List, [], ◌∷◌, ◌++◌, Option, none, some, Bool,
  if◌then◌else◌, length, take, drop, get_or, replicate, ltb, leb, inl, inr, ◌⊎◌,
}
use zeronat.Noise.Primitives.{Primitives}
use zeronat.Hash.Blake2s.{hmac_blake2s, blake2s}

abbrev pub hash_len : ℕ
hash_len = 32

abbrev pub dh_len : ℕ
dh_len = 32

abbrev pub tag_len : ℕ
tag_len = 16

-- The errors, one for each message of the source.
pub data Error : Type 0 where
  aead_failed invalid_static one_too_short two_too_short three_too_short : Error
  short_datagram decrypt_failed nonce_exhausted outside_window replayed : Error
  bad_preface bad_version bad_role unknown_client admin_disabled client_required : Error
  missing_id bad_capability : Error

abbrev pub xx_pattern : List ℕ
xx_pattern =
    78 ∷ 111 ∷ 105 ∷ 115 ∷ 101 ∷ 95 ∷ 88 ∷ 88 ∷ 95 ∷ 50 ∷ 53 ∷ 53 ∷ 49 ∷ 57 ∷ 95 ∷ 67 ∷ 104 ∷ 97
    ∷ 67 ∷ 104 ∷ 97 ∷ 80 ∷ 111 ∷ 108 ∷ 121 ∷ 95 ∷ 66 ∷ 76 ∷ 65 ∷ 75 ∷ 69 ∷ 50 ∷ 115 ∷ []

abbrev pub pattern : List ℕ
pattern =
    78 ∷ 111 ∷ 105 ∷ 115 ∷ 101 ∷ 95 ∷ 78 ∷ 78 ∷ 112 ∷ 115 ∷ 107 ∷ 48 ∷ 95 ∷ 50 ∷ 53 ∷ 53 ∷ 49 ∷ 57
    ∷ 95 ∷ 67 ∷ 104 ∷ 97 ∷ 67 ∷ 104 ∷ 97 ∷ 80 ∷ 111 ∷ 108 ∷ 121 ∷ 95 ∷ 66 ∷ 76 ∷ 65 ∷ 75 ∷ 69 ∷ 50
    ∷ 115 ∷ []

-- The outputs one after the other, each over the one before.
unfoldable pub hkdf_outputs : List ℕ → List ℕ → ℕ → ℕ → List (List ℕ)
hkdf_outputs temp prev i zero = []
hkdf_outputs temp prev i (suc n) =
    let o = hmac_blake2s temp (prev ∷ (i ∷ []) ∷ []) in o ∷ hkdf_outputs temp o (suc i) n

-- Three arrays, of which the first n are outputs.
unfoldable pub hkdf : List ℕ → List ℕ → ℕ → List (List ℕ)
hkdf ck ikm n =
    hkdf_outputs (hmac_blake2s ck (ikm ∷ [])) [] 1 n ++ replicate (3 - n) (replicate hash_len 0)

unfoldable pub le64 : ℕ → List ℕ
le64 v =
    v % 256
    ∷ v / 2 ^ 8 % 256
    ∷ v / 2 ^ 16 % 256
    ∷ v / 2 ^ 24 % 256
    ∷ v / 2 ^ 32 % 256
    ∷ v / 2 ^ 40 % 256
    ∷ v / 2 ^ 48 % 256
    ∷ v / 2 ^ 56 % 256
    ∷ []

unfoldable pub aead_nonce : ℕ → List ℕ
aead_nonce n = 0 ∷ 0 ∷ 0 ∷ 0 ∷ le64 n

pub record SymmetricState : Type 0 where
  pub ck : List ℕ
  pub h : List ℕ
  pub k : Option (List ℕ)
  pub n : ℕ

pub record Keys : Type 0 where
  pub send_key : List ℕ
  pub recv_key : List ℕ

-- `SymmetricState::new`
unfoldable pub new_state : List ℕ → SymmetricState
new_state protocol =
    let h =
      if leb (length protocol) hash_len
      then protocol ++ replicate (hash_len - length protocol) 0
      else blake2s (protocol ∷ []) in
    record { ck = h; h = h; k = none; n = 0 }

unfoldable pub mix_hash : SymmetricState → List ℕ → SymmetricState
mix_hash s bytes = record s { h = blake2s (s.h ∷ bytes ∷ []) }

unfoldable pub mix_key : SymmetricState → List ℕ → SymmetricState
mix_key s ikm =
    let out = hkdf s.ck ikm 2 in
    record s { ck = get_or out 0 []; k = some (get_or out 1 []); n = 0 }

unfoldable pub mix_key_and_hash : SymmetricState → List ℕ → SymmetricState
mix_key_and_hash s ikm =
    let out = hkdf s.ck ikm 3 in
    let mixed = mix_hash (record s { ck = get_or out 0 [] }) (get_or out 1 []) in
    record mixed { k = some (get_or out 2 []); n = 0 }

-- `keys`: the initiator sends under the first output and receives under the second.
unfoldable pub keys : SymmetricState → Bool → Keys
keys s initiator =
    let out = hkdf s.ck [] 2 in
    if initiator
    then record { send_key = get_or out 0 []; recv_key = get_or out 1 [] }
    else record { send_key = get_or out 1 []; recv_key = get_or out 0 [] }

module _ (c : Primitives) where
  unfoldable pub aead_seal : List ℕ → ℕ → List ℕ → List ℕ → List ℕ × List ℕ
  aead_seal key n ad buf = c.encrypt key (aead_nonce n) ad buf

  unfoldable pub aead_open : List ℕ → ℕ → List ℕ → List ℕ → Option (List ℕ)
  aead_open key n ad ct =
      let split = length ct - tag_len in
      if ltb (length ct) tag_len
      then none
      else c.decrypt key (aead_nonce n) ad (take split ct) (drop split ct)

  unfoldable pub aead_encrypt : List ℕ → ℕ → List ℕ → List ℕ → List ℕ
  aead_encrypt key n ad pt = let sealed = aead_seal key n ad pt in sealed.0 ++ sealed.1

  abbrev encrypt_under : Option (List ℕ) → SymmetricState → List ℕ → SymmetricState × List ℕ
  encrypt_under none s pt = (s, pt)
  encrypt_under (some k) s pt = (record s { n = (s.n + 1) % 2 ^ 64 }, aead_encrypt k s.n s.h pt)

  unfoldable pub encrypt_and_hash : SymmetricState → List ℕ → SymmetricState × List ℕ
  encrypt_and_hash s pt = let (s', out) = encrypt_under s.k s pt in (mix_hash s' out, out)

  abbrev decrypted : SymmetricState → Option (List ℕ) → SymmetricState × (Error ⊎ List ℕ)
  decrypted s none = (s, inl aead_failed)
  decrypted s (some pt) = (record s { n = (s.n + 1) % 2 ^ 64 }, inr pt)

  abbrev decrypt_under :
      Option (List ℕ) → SymmetricState → List ℕ → SymmetricState × (Error ⊎ List ℕ)
  decrypt_under none s ct = (s, inr ct)
  decrypt_under (some k) s ct = decrypted s (aead_open k s.n s.h ct)

  -- The ciphertext is mixed in only once it is decrypted.
  abbrev hashed : List ℕ → SymmetricState × (Error ⊎ List ℕ) → SymmetricState × (Error ⊎ List ℕ)
  hashed ct (s, inl e) = (s, inl e)
  hashed ct (s, inr pt) = (mix_hash s ct, inr pt)

  unfoldable pub decrypt_and_hash : SymmetricState → List ℕ → SymmetricState × (Error ⊎ List ℕ)
  decrypt_and_hash s ct = hashed ct (decrypt_under s.k s ct)
