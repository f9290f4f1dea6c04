-- ===== src/Admission/Cookies.antt =====
-- src/admission.rs: the cookies that bind an admission to a source address. The random key is a
-- field, an instant the milliseconds since the jar's epoch, which the clock gives as an argument.
-- An instant that is not later than now does not overflow.
use zeronat.Base.{
  ℕ, ◌-◌, List, [], ◌∷◌, ◌++◌, Option, none, some, if◌then◌else◌, length, take, drop, ltb, ◌==◌,
  not, be16, be32, ◌||◌,
}
use zeronat.Proto.Types.{IpAddr, v4, v6, SocketAddr}
use zeronat.Noise.Transport.{u64_at, be64}
use zeronat.Hash.Blake2s.{finalize, update, new, ct_eq}

abbrev pub class_challenge : ℕ
class_challenge = 0x06

abbrev pub ts_len : ℕ
ts_len = 8

abbrev pub mac_len : ℕ
mac_len = 16

abbrev pub cookie_len : ℕ
cookie_len = 24

-- `HELLO_LEN`, which is `CHALLENGE_LEN`
abbrev pub hello_len : ℕ
hello_len = 25

-- `COOKIE_TTL` in milliseconds
abbrev pub cookie_ttl : ℕ
cookie_ttl = 30000

pub record CookieJar : Type 0 where
  pub key : List ℕ

-- `octets`
unfoldable pub ip_octets : IpAddr → List ℕ
ip_octets (v4 ip) = be32 ip
ip_octets (v6 bytes) = bytes

unfoldable pub mac_for : CookieJar → ℕ → SocketAddr → List ℕ
mac_for jar ts src =
    take mac_len
      (finalize (update (new mac_len jar.key) ((be64 ts ++ ip_octets src.ip) ++ be16 src.port)))

unfoldable pub challenge : CookieJar → ℕ → SocketAddr → List ℕ
challenge jar now src = ((class_challenge ∷ []) ++ be64 now) ++ mac_for jar now src

unfoldable pub verify : CookieJar → ℕ → SocketAddr → List ℕ → Option ℕ
verify jar now src body =
    let ts = u64_at (take ts_len body) in
    let mac = drop ts_len body in
    if not (length body == cookie_len)
    then none
    else if ltb now ts || ltb cookie_ttl (now - ts)
    then none
    else if not (ct_eq (mac_for jar ts src) mac)
    then none
    else some ts
