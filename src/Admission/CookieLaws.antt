-- ===== src/Admission/CookieLaws.antt =====
-- A cookie admits the source it was issued to, for as long as it lives.
use zeronat.Base.{
  ℕ, ◌+◌, ◌-◌, ◌≡◌, ◌≤◌, ◌<◌, ◌^◌, List, [], ◌∷◌, ◌++◌, some, true, false, length, take, drop, ltb,
  ◌==◌, arith, refl, ap, sym, ◌∙◌, length-take, take_front, drop_front, beq_bytes, beq_bytes_refl,
  min, append-nil, ◌||◌, be16,
}
use zeronat.Proto.Types.{SocketAddr}
use zeronat.Admission.Cookies.{mac_for, verify, CookieJar, challenge, hello_len, ip_octets}
use zeronat.Noise.Transport.{u64_at, be64}
use zeronat.Hash.Blake2s.{ct_eq, finalize, update, new}
use zeronat.Noise.Delivery.{length-be64_append, length-be64, u64_at-be64}
use zeronat.Hash.Hmac.{ct_eq-beq_bytes}
use zeronat.Hash.Digest.{length_keyed}

-- A digest of any length has 32 bytes, so the MAC has 16.
length-mac_for :
    (jar : CookieJar) (ts : ℕ) (src : SocketAddr)
    → length jar.key ≤ 64
    → length (mac_for jar ts src) ≡ 16
unfolding mac_for
length-mac_for jar ts src h =
    let msg = (be64 ts ++ ip_octets src.ip) ++ be16 src.port in
    length-take 16 (finalize (update (new 16 jar.key) msg))
    ∙ ap (min 16) (length_keyed 16 jar.key msg h)

beq_bytes_sound : (a b : List ℕ) → beq_bytes a b ≡ true → a ≡ b
beq_bytes_sound [] [] h = refl
beq_bytes_sound [] (y ∷ ys) h = absurd cc
beq_bytes_sound (x ∷ xs) [] h = absurd cc
beq_bytes_sound (x ∷ xs) (y ∷ ys) h =
    let heads : x ≡ y = ground arith in
    let tails : beq_bytes xs ys ≡ true = ground arith in
    λ i. heads i ∷ beq_bytes_sound xs ys tails i

verify-by_parts :
    (jar : CookieJar) (now ts : ℕ) (src : SocketAddr) (body : List ℕ)
    → (length body == 24) ≡ true
    → u64_at (take 8 body) ≡ ts
    → (ltb now ts || ltb 30000 (now - ts)) ≡ false
    → ct_eq (mac_for jar ts src) (drop 8 body) ≡ true
    → verify jar now src body ≡ some ts
unfolding verify
verify-by_parts jar now ts src body size time fresh same = rw (size, time, fresh, same) refl

-- The body of a challenge is a cookie that verifies for the same source until thirty seconds have
-- passed, and the challenge is no longer than the hello that it answers.
pub verify-challenge :
    (jar : CookieJar) (issued now : ℕ) (src : SocketAddr)
    → length jar.key ≤ 64
    → issued < 2 ^ 64
    → issued ≤ now
    → now ≤ issued + 30000
    → (verify jar now src (drop 1 (challenge jar issued src)) ≡ some issued)
      × (length (challenge jar issued src) ≤ hello_len)
unfolding challenge be64
verify-challenge jar issued now src k s le ttl =
    let mac = mac_for jar issued src in
    let body = be64 issued ++ mac in
    let mac_size = length-mac_for jar issued src k in
    let size : (length body == 24) ≡ true = ground (arith, length-be64_append issued mac) in
    let time : u64_at (take 8 body) ≡ issued =
      ap u64_at
        (take_front 8 (be64 issued) mac (length-be64 issued) ∙ sym (append-nil (be64 issued)))
      ∙ u64_at-be64 issued [] s in
    let fresh : (ltb now issued || ltb 30000 (now - issued)) ≡ false = ground arith in
    let same : ct_eq mac mac ≡ true = ct_eq-beq_bytes mac mac ∙ beq_bytes_refl mac in
    (
      verify-by_parts jar now issued src body size time fresh
          (ap (ct_eq mac) (drop_front 8 (be64 issued) mac (length-be64 issued)) ∙ same),
      omega (arith, mac_size),
    )

-- A body that verifies for a source holds a time that is not later than now nor more than thirty
-- seconds ago, and the MAC of that time and that source under the jar's key.
pub verify_sound :
    (jar : CookieJar) (now ts : ℕ) (src : SocketAddr) (body : List ℕ)
    → verify jar now src body ≡ some ts
    → (ts ≡ u64_at (take 8 body))
      × (drop 8 body ≡ mac_for jar ts src)
      × (ts ≤ now)
      × (now ≤ ts + 30000)
unfolding verify
verify_sound jar now ts src body e =
    let t = u64_at (take 8 body) in
    let same : ct_eq (mac_for jar t src) (drop 8 body) ≡ true = ground arith in
    let is : t ≡ ts = ground arith in
    let mac =
      beq_bytes_sound (mac_for jar t src) (drop 8 body)
        (sym (ct_eq-beq_bytes (mac_for jar t src) (drop 8 body)) ∙ same) in
    (sym is, sym mac ∙ ap (λ x. mac_for jar x src) is, ground arith, ground arith)
