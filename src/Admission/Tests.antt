-- ===== src/Admission/Tests.antt =====
-- A jar, and a cookie that it issues and takes back.
use zeronat.Base.{◌+◌, ◌≡◌, ◌≤◌, some, length, take, drop, replicate, refl, arith}
use zeronat.Proto.Types.{v4, v6, SocketAddr}
use zeronat.Noise.Transport.{u64_at}
use zeronat.Admission.Cookies.{CookieJar, challenge, verify, mac_for, hello_len}
use zeronat.Admission.ProxyHeader.{encode_v2}
use zeronat.Admission.HeaderLaws.{claimed_length, encode_v2-claimed_length}
use zeronat.Admission.CookieLaws.{verify-challenge, verify_sound}

abbrev jar : CookieJar
jar = record { key = replicate 32 7 }

abbrev source : SocketAddr
source = record { ip = v4 3405803781; port = 51820 }

verify-challenge_example :
    (verify jar 31000 source (drop 1 (challenge jar 1000 source)) ≡ some 1000)
    × (length (challenge jar 1000 source) ≤ hello_len)
verify-challenge_example =
    verify-challenge jar 1000 31000 source (omega arith) (omega arith) (omega arith) (omega arith)

issued :
    (verify jar 31000 source (drop 1 (challenge jar 1000 source)) ≡ some 1000)
    × (length (challenge jar 1000 source) ≤ hello_len)
issued =
    verify-challenge jar 1000 31000 source (omega arith) (omega arith) (omega arith) (omega arith)

verify_sound_example :
    let body = drop 1 (challenge jar 1000 source) in
    (1000 ≡ u64_at (take 8 body))
    × (drop 8 body ≡ mac_for jar 1000 source)
    × (1000 ≤ 31000)
    × (31000 ≤ 1000 + 30000)
verify_sound_example =
    verify_sound jar 31000 1000 source (drop 1 (challenge jar 1000 source)) issued.0

encode_v2-claimed_length_example :
    length (encode_v2 source (record source { ip = v6 (replicate 16 1) }))
    ≡ 16 + claimed_length (encode_v2 source (record source { ip = v6 (replicate 16 1) }))
encode_v2-claimed_length_example =
    encode_v2-claimed_length source (record source { ip = v6 (replicate 16 1) }) tt refl
