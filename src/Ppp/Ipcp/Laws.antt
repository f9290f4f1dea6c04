-- ===== src/Ppp/Ipcp/Laws.antt =====
-- How IPCP learns our address.
use zeronat.Base.{ℕ, ◌<◌, ◌≡◌, true, false, none, some, List, ◌∷◌, arith, be32, u32_be-be32, ◌^◌}
use zeronat.Ppp.Ipcp.{Ipv4cp, own_options, own_option_nacked, status}

-- A Nak with a usable address is adopted: our next request asks for this address, the rest of the
-- request stays as it was, and once the negotiation is over the status reports the address.
pub nacked_address :
    (c : Ipv4cp) (a : ℕ)
    → 0 < a
    → a < 2 ^ 32
    → c.address.is_rejected ≡ false
    → let c' = own_option_nacked c 3 (be32 a) false in
      (own_options c'
        ≡ record { code = 3; body = be32 a }
          ∷ own_options (record c { address = record { address = 0; is_rejected = true } }))
      × ((status c').address ≡ some a)
unfolding own_option_nacked own_options status
nacked_address c a h k e = ground (arith, u32_be-be32 a)

-- An option that the peer rejects is not asked for again, and stays unknown.
pub rejected_address :
    (c : Ipv4cp) (body : List ℕ)
    → let c' = own_option_nacked c 3 body true in
      (own_options c'
        ≡ own_options (record c { address = record { address = 0; is_rejected = true } }))
      × ((status c').address ≡ none)
unfolding own_option_nacked own_options status
rejected_address c body = ground arith
