-- ===== src/Noise/Claim.antt =====
-- src/noise.rs: the handshakes that carry a credential, a stream id and a capability, by their
-- messages. The preface and the messages arrive whole; the frames around them are read to their end.
use zeronat.Base.{
  ℕ, ◌+◌, ◌≡◌, ◌<◌, ◌^◌, List, [], ◌++◌, Option, none, some, true, if◌then◌else◌, length, drop, ltb,
  inl, inr, ◌⊎◌, ◌==◌, not, arith, refl, ap, ◌∙◌, drop_front,
}
use zeronat.Noise.Primitives.{Primitives, PrimitiveLaws}
use zeronat.Noise.Symmetric.{
  Error, SymmetricState, Keys, unknown_client, bad_capability, client_required, missing_id,
}
use zeronat.Noise.Preface.{
  preface_of, AuthIdentity, Credential, parse_remote_preface, client, AuthRole, from_byte,
  find_client, client_selector, select_credential, role_byte, admin,
}
use zeronat.Noise.Transport.{StatelessNoise, from_keys, u64_at, be64}
use zeronat.Noise.Nn.{Response, finish_initiate, respond, stateless_prologue, initiate}
use zeronat.Noise.NnLaws.{respond-initiate}
use zeronat.Noise.Delivery.{length-be64_append, length-be64, u64_at-be64}

-- `CAPABILITY_LEN` of src/proto.rs
abbrev pub capability_len : ℕ
capability_len = 32

-- What the initiator of a claim sends: the preface, and the first message under it.
pub record ClaimRequest : Type 0 where
  pub preface : List ℕ
  pub state : SymmetricState
  pub msg1 : List ℕ

-- What the responder of a claim ends with.
pub record Claim : Type 0 where
  pub client_id : List ℕ
  pub id : ℕ
  pub capability : List ℕ
  pub transport : StatelessNoise
  pub msg2 : List ℕ

module _ (c : Primitives) where
  -- `client_handshake_stateless_claim_reply`, up to its first message.
  unfoldable pub claim_request : List ℕ → List ℕ → ℕ → List ℕ → ClaimRequest
  claim_request credential_psk e_priv id capability =
      let preface = preface_of client (client_selector credential_psk) in
      let (s, msg1) = initiate c credential_psk preface e_priv (be64 id ++ capability) in
      record { preface = preface; state = s; msg1 = msg1 }

  abbrev transported : Error ⊎ (Keys × List ℕ) → Error ⊎ (StatelessNoise × List ℕ)
  transported (inl e) = inl e
  transported (inr (k, reply)) = inr (from_keys k, reply)

  -- The same from the second message on.
  unfoldable pub claim_finish : SymmetricState → List ℕ → List ℕ → Error ⊎ (StatelessNoise × List ℕ)
  claim_finish s e_priv msg2 = transported (finish_initiate c s e_priv msg2)

  abbrev pub claimed : List ℕ → Error ⊎ Response c → Error ⊎ Claim
  claimed client_id (inl e) = inl e
  claimed client_id (inr r) =
      if not (length r.payload == 8 + capability_len)
      then inl bad_capability
      else inr (record {
        client_id = client_id;
        id = u64_at r.payload;
        capability = drop 8 r.payload;
        transport = from_keys r.transport;
        msg2 = r.msg;
      })

  abbrev pub claim_with : List ℕ → List ℕ → List ℕ → List ℕ → Option Credential → Error ⊎ Claim
  claim_with preface e_priv reply msg1 none = inl unknown_client
  claim_with preface e_priv reply msg1 (some k) =
      claimed k.client_id (respond c k.psk preface e_priv reply msg1)

  abbrev pub claim_as :
      List Credential
      → List ℕ
      → List ℕ
      → List ℕ
      → List ℕ
      → Error ⊎ (AuthRole × List ℕ)
      → Error ⊎ Claim
  claim_as clients preface e_priv reply msg1 (inl e) = inl e
  claim_as clients preface e_priv reply msg1 (inr (admin, selector)) = inl client_required
  claim_as clients preface e_priv reply msg1 (inr (client, selector)) =
      claim_with preface e_priv reply msg1 (find_client clients selector)

  -- `claim_responder`
  unfoldable pub claim_responder :
      List Credential → List ℕ → List ℕ → List ℕ → List ℕ → Error ⊎ Claim
  claim_responder clients e_priv reply preface msg1 =
      claim_as clients preface e_priv reply msg1 (parse_remote_preface preface)

  abbrev with_id : Error ⊎ Response c → Error ⊎ (ℕ × StatelessNoise × List ℕ)
  with_id (inl e) = inl e
  with_id (inr r) =
      if ltb (length r.payload) 8
      then inl missing_id
      else inr (u64_at r.payload, from_keys r.transport, r.msg)

  -- `stateless_responder`: the id, the transport and the second message.
  unfoldable pub stateless_responder :
      List ℕ → List ℕ → List ℕ → List ℕ → Error ⊎ (ℕ × StatelessNoise × List ℕ)
  stateless_responder psk e_priv reply msg1 =
      with_id (respond c psk stateless_prologue e_priv reply msg1)

  abbrev identified : AuthIdentity → Error ⊎ Response c → Error ⊎ (AuthIdentity × Response c)
  identified who (inl e) = inl e
  identified who (inr r) = inr (who, r)

  abbrev remote_with :
      List ℕ
      → List ℕ
      → List ℕ
      → Error ⊎ (AuthIdentity × List ℕ)
      → Error ⊎ (AuthIdentity × Response c)
  remote_with preface e_priv msg1 (inl e) = inl e
  remote_with preface e_priv msg1 (inr (who, psk)) =
      identified who (respond c psk preface e_priv [] msg1)

  abbrev remote_as :
      List Credential
      → Option (List ℕ)
      → List ℕ
      → List ℕ
      → List ℕ
      → Error ⊎ (AuthRole × List ℕ)
      → Error ⊎ (AuthIdentity × Response c)
  remote_as clients admin_psk preface e_priv msg1 (inl e) = inl e
  remote_as clients admin_psk preface e_priv msg1 (inr (role, selector)) =
      remote_with preface e_priv msg1 (select_credential clients admin_psk role selector)

  -- `remote_responder`: the identity and the answer of the handshake under its key.
  unfoldable pub remote_responder :
      List Credential
      → Option (List ℕ)
      → List ℕ
      → List ℕ
      → List ℕ
      → Error ⊎ (AuthIdentity × Response c)
  remote_responder clients admin_psk e_priv preface msg1 =
      remote_as clients admin_psk preface e_priv msg1 (parse_remote_preface preface)

parse-preface_of :
    (role : AuthRole) (selector : List ℕ)
    → parse_remote_preface (preface_of role selector) ≡ inr (role, selector)
unfolding parse_remote_preface preface_of from_byte role_byte
parse-preface_of client selector = refl
parse-preface_of admin selector = refl

-- Let the primitives have the laws of their crates. If the responder's credentials have the key of the
-- initiator's credential under its selector, a claim with an id of 64 bits and a capability of 32 bytes
-- gives the responder the credential's client, the id and the capability; its answer gives the
-- initiator the reply, and each side sends under the key that the other receives with.
pub claim_responder-claim_request :
    (c : Primitives) (l : PrimitiveLaws c) (clients : List Credential) (k : Credential)
    (ei er capability reply : List ℕ) (id : ℕ)
    → find_client clients (client_selector k.psk) ≡ some k
    → length capability ≡ 32
    → id < 2 ^ 64
    → let ask = claim_request c k.psk ei id capability in
      (claim : Claim) × (ours : StatelessNoise) × (claim_responder c clients er reply ask.preface
          ask.msg1
        ≡ inr claim)
      × (claim.client_id ≡ k.client_id)
      × (claim.id ≡ id)
      × (claim.capability ≡ capability)
      × (claim_finish c ask.state ei claim.msg2 ≡ inr (ours, reply))
      × (ours.send_key ≡ claim.transport.recv_key)
      × (ours.recv_key ≡ claim.transport.send_key)
unfolding claim_request claim_responder claim_finish from_keys
claim_responder-claim_request c l clients k ei er capability reply id found size small =
    let preface = preface_of client (client_selector k.psk) in
    let payload = be64 id ++ capability in
    let (r, keys_i, e1, e2, e3, e4, e5) = respond-initiate c l k.psk preface ei er payload reply in
    let msg1 = (initiate c k.psk preface ei payload).1 in
    let fits : (length r.payload == 40) ≡ true =
      ap (λ p. length p == 40) e2 ∙ ground (arith, length-be64_append id capability) in
    let back : drop 8 payload ≡ capability = drop_front 8 (be64 id) capability (length-be64 id) in
    (
      record {
        client_id = k.client_id;
        id = u64_at r.payload;
        capability = drop 8 r.payload;
        transport = from_keys r.transport;
        msg2 = r.msg;
      },
      from_keys keys_i,
      ap (claim_as c clients preface er reply msg1)
            (parse-preface_of client (client_selector k.psk))
          ∙ ap (claim_with c preface er reply msg1) found
          ∙ ap (claimed c k.client_id) e1
          ∙ rw fits refl,
      refl,
      ap u64_at e2 ∙ u64_at-be64 id capability small,
      ap (drop 8) e2 ∙ back,
      ap (transported c) e3,
      e4,
      e5,
    )
