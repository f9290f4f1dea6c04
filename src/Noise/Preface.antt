-- ===== src/Noise/Preface.antt =====
-- src/noise.rs: the preface that names a credential before a handshake. The map of the credentials
-- is a list of entries with distinct selectors, a client id its bytes.
use zeronat.Base.{
  ℕ, List, [], ◌∷◌, ◌++◌, Option, none, some, if◌then◌else◌, take, drop, get_or, inl, inr, ◌⊎◌,
  ◌==◌, not, beq_bytes,
}
use zeronat.Hash.Blake2s.{blake2s}
use zeronat.Noise.Symmetric.{
  Error, bad_preface, unknown_client, admin_disabled, bad_version, bad_role,
}

pub data AuthRole : Type 0 where
  client admin : AuthRole

pub data AuthIdentity : Type 0 where
  client_identity : List ℕ → AuthIdentity
  admin_identity : AuthIdentity

abbrev pub client_selector_len : ℕ
client_selector_len = 16

abbrev pub proto_version : ℕ
proto_version = 8

abbrev pub remote_preface_magic : List ℕ
remote_preface_magic = 90 ∷ 78 ∷ []

-- `self as u8`
unfoldable pub role_byte : AuthRole → ℕ
role_byte client = 1
role_byte admin = 2

unfoldable pub from_byte : ℕ → Error ⊎ AuthRole
from_byte value = if value == 1 then inr client else if value == 2 then inr admin else inl bad_role

-- `preface`
unfoldable pub preface_of : AuthRole → List ℕ → List ℕ
preface_of role selector = remote_preface_magic ++ (proto_version ∷ role_byte role ∷ selector)

abbrev with_selector : List ℕ → Error ⊎ AuthRole → Error ⊎ (AuthRole × List ℕ)
with_selector selector (inl e) = inl e
with_selector selector (inr role) = inr (role, selector)

unfoldable pub parse_remote_preface : List ℕ → Error ⊎ (AuthRole × List ℕ)
parse_remote_preface preface =
    if not (beq_bytes (take 2 preface) remote_preface_magic)
    then inl bad_preface
    else if not (get_or preface 2 0 == proto_version)
    then inl bad_version
    else with_selector (drop 4 preface) (from_byte (get_or preface 3 0))

-- "zeronat-client-credential-selector-v1"
abbrev pub selector_tag : List ℕ
selector_tag =
    122 ∷ 101 ∷ 114 ∷ 111 ∷ 110 ∷ 97 ∷ 116 ∷ 45 ∷ 99 ∷ 108 ∷ 105 ∷ 101 ∷ 110 ∷ 116 ∷ 45 ∷ 99 ∷ 114
    ∷ 101 ∷ 100 ∷ 101 ∷ 110 ∷ 116 ∷ 105 ∷ 97 ∷ 108 ∷ 45 ∷ 115 ∷ 101 ∷ 108 ∷ 101 ∷ 99 ∷ 116 ∷ 111
    ∷ 114 ∷ 45 ∷ 118 ∷ 49 ∷ []

unfoldable pub client_selector : List ℕ → List ℕ
client_selector psk = take client_selector_len (blake2s (selector_tag ∷ psk ∷ []))

pub record Credential : Type 0 where
  pub selector : List ℕ
  pub client_id : List ℕ
  pub psk : List ℕ

-- `clients.get`
unfoldable pub find_client : List Credential → List ℕ → Option Credential
find_client [] selector = none
find_client (k ∷ ks) selector =
    let rest = find_client ks selector in if beq_bytes k.selector selector then some k else rest

abbrev for_client : Option Credential → Error ⊎ (AuthIdentity × List ℕ)
for_client none = inl unknown_client
for_client (some k) = inr (client_identity k.client_id, k.psk)

abbrev for_admin : Option (List ℕ) → Error ⊎ (AuthIdentity × List ℕ)
for_admin none = inl admin_disabled
for_admin (some psk) = inr (admin_identity, psk)

-- The identity and the key that a role and a selector stand for.
unfoldable pub select_credential :
    List Credential → Option (List ℕ) → AuthRole → List ℕ → Error ⊎ (AuthIdentity × List ℕ)
select_credential clients admin_psk client selector = for_client (find_client clients selector)
select_credential clients admin_psk admin selector = for_admin admin_psk
