-- ===== src/Hash/Tests.antt =====
-- Runs on which the theorems apply.
use zeronat.Base.{ℕ, List, [], ◌∷◌, ◌≡◌, beq_bytes, arith}
use zeronat.Hash.Blake2s.{hmac_blake2s, update, ct_eq, new}
use zeronat.Hash.Stream.{concat, absorb, update-absorb, new-InBlock}
use zeronat.Hash.Hmac.{hmac_reference, hmac_blake2s-hmac_reference, ct_eq-beq_bytes}

abbrev abc : List ℕ
abc = 97 ∷ 98 ∷ 99 ∷ []

update-absorb_example : update (new 32 []) abc ≡ absorb (new 32 []) abc
update-absorb_example = update-absorb (new 32 []) abc new-InBlock

hmac_blake2s-hmac_reference_example :
    hmac_blake2s abc (abc ∷ abc ∷ []) ≡ hmac_reference abc (concat (abc ∷ abc ∷ []))
hmac_blake2s-hmac_reference_example =
    hmac_blake2s-hmac_reference abc (abc ∷ abc ∷ []) (omega arith, (omega arith, (omega arith, tt)))

ct_eq-beq_bytes_example : ct_eq abc (97 ∷ []) ≡ beq_bytes abc (97 ∷ [])
ct_eq-beq_bytes_example = ct_eq-beq_bytes abc (97 ∷ [])
