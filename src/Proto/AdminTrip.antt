-- ===== src/Proto/AdminTrip.antt =====
-- The messages of an admin session are decoded from what they are encoded to.
use zeronat.Base.{
  ℕ, ◌≡◌, inr, refl, Bool, Option, none, some, List, [], ◌∷◌, ◌++◌, arith, ap, ◌∙◌, append_assoc,
}
use zeronat.Proto.Types.{Proto}
use zeronat.Proto.Writer.{
  tagged, put_u8, put_u16, put_u64, put_bytes, put_target, put_secret, client_credential, bool_u8,
}
use zeronat.Proto.Encoded.{IsU16, IsU32, IsStr, str_bytes, put_str-bytes}
use zeronat.Proto.Msg.{
  admin_hello, add_listener, remove_listener, set_route, clear_route, mutation_result, add_client,
  set_client_secret, remove_client, disconnect_client, encode,
}
use zeronat.Proto.Arms.{
  read_admin_hello, read_target, read_set_route, read_mutation_result, read_credential,
  read_client_id,
}
use zeronat.Proto.Decode.{read_client_msg, read_admin_msg, read_msg, decode}
use zeronat.Proto.Reads.{get_u8-Reads, get_u16-Reads, get_proto-Reads, flag-Reads}
use zeronat.Proto.PartReads.{get_str-Reads, get_ip-Reads, take_target-Reads}
use zeronat.Proto.Ends.{
  Ends-ret, Ends-bind, Ends-last, Ends-need, Ends-at_end, Ends-map, when_len-Ends, decode-Ends,
}
use zeronat.Proto.ArmReads.{IsSecret, take_client_credential-Ends, credential_bytes}

client_credential-bytes :
    (tag : ℕ) (client_id : List ℕ) (secret : Option (List ℕ))
    → IsStr client_id
    → client_credential tag client_id secret ≡ tag ∷ credential_bytes client_id secret
unfolding client_credential tagged put_u8 put_secret put_bytes
client_credential-bytes tag client_id none h =
    ap (λ b. b ++ (0 ∷ [])) (put_str-bytes (tag ∷ []) client_id h.0)
client_credential-bytes tag client_id (some s) h =
    ap (λ b. (b ++ (1 ∷ [])) ++ s) (put_str-bytes (tag ∷ []) client_id h.0)
    ∙ ap (λ l. tag ∷ l) (append_assoc (str_bytes client_id) (1 ∷ []) s)

pub admin_hello-decoded :
    (version : ℕ) (mode : ℕ)
    → decode (encode (admin_hello version mode)) ≡ inr (admin_hello version mode)
unfolding encode tagged put_u8 put_u16 put_u64 put_bytes put_target read_msg read_admin_msg
    read_client_msg read_admin_hello
admin_hello-decoded version mode = decode-Ends 6 (
    when_len-Ends (refl) (
      Ends-bind _ (get_u8-Reads version)
        (Ends-last _ (get_u8-Reads mode) (Ends-ret (admin_hello version mode)))))

pub add_listener-decoded :
    (bind_ip : ℕ) (proto : Proto) (port : ℕ)
    → IsU32 bind_ip
    → IsU16 port
    → decode (encode (add_listener bind_ip proto port)) ≡ inr (add_listener bind_ip proto port)
unfolding encode tagged put_u8 put_u16 put_u64 put_bytes put_target read_msg read_admin_msg
    read_client_msg read_target
add_listener-decoded bind_ip proto port hi hp = decode-Ends 8 (
    when_len-Ends (refl) (
      Ends-last _ (take_target-Reads bind_ip proto port hi hp)
        (Ends-ret (add_listener bind_ip proto port))))

pub remove_listener-decoded :
    (bind_ip : ℕ) (proto : Proto) (port : ℕ)
    → IsU32 bind_ip
    → IsU16 port
    → decode (encode (remove_listener bind_ip proto port))
      ≡ inr (remove_listener bind_ip proto port)
unfolding encode tagged put_u8 put_u16 put_u64 put_bytes put_target read_msg read_admin_msg
    read_client_msg read_target
remove_listener-decoded bind_ip proto port hi hp = decode-Ends 9 (
    when_len-Ends (refl) (
      Ends-last _ (take_target-Reads bind_ip proto port hi hp)
        (Ends-ret (remove_listener bind_ip proto port))))

pub clear_route-decoded :
    (bind_ip : ℕ) (proto : Proto) (port : ℕ)
    → IsU32 bind_ip
    → IsU16 port
    → decode (encode (clear_route bind_ip proto port)) ≡ inr (clear_route bind_ip proto port)
unfolding encode tagged put_u8 put_u16 put_u64 put_bytes put_target read_msg read_admin_msg
    read_client_msg read_target
clear_route-decoded bind_ip proto port hi hp = decode-Ends 11 (
    when_len-Ends (refl) (
      Ends-last _ (take_target-Reads bind_ip proto port hi hp)
        (Ends-ret (clear_route bind_ip proto port))))

pub set_route-decoded :
    (bind_ip : ℕ) (proto : Proto) (port : ℕ) (client_id : List ℕ)
    → IsU32 bind_ip
    → IsU16 port
    → IsStr client_id
    → decode (encode (set_route bind_ip proto port client_id))
      ≡ inr (set_route bind_ip proto port client_id)
unfolding encode tagged put_u8 put_u16 put_u64 put_bytes put_target read_msg read_admin_msg
    read_client_msg read_set_route
set_route-decoded bind_ip proto port client_id hi hp h =
    rw (put_str-bytes (put_target (10 ∷ []) bind_ip proto port) client_id h.0) (
      decode-Ends 10 (
        Ends-bind _ (get_ip-Reads bind_ip hi) (
          Ends-need _ (omega arith) (
            Ends-bind _ (get_proto-Reads proto) (
              Ends-bind _ (get_u16-Reads port hp) (
                Ends-last _ (get_str-Reads client_id h)
                  (Ends-at_end _ (Ends-ret (set_route bind_ip proto port client_id)))))))))

pub mutation_result-decoded :
    (ok : Bool) (msg : List ℕ)
    → IsStr msg
    → decode (encode (mutation_result ok msg)) ≡ inr (mutation_result ok msg)
unfolding encode tagged put_u8 put_u16 put_u64 put_bytes put_target read_msg read_admin_msg
    read_client_msg read_mutation_result
mutation_result-decoded ok msg h = rw (put_str-bytes (12 ∷ bool_u8 ok ∷ []) msg h.0) (
    decode-Ends 12 (
      Ends-need _ (omega arith) (
        Ends-bind _ (flag-Reads _ ok)
          (Ends-last _ (get_str-Reads msg h) (Ends-at_end _ (Ends-ret (mutation_result ok msg)))))))

pub remove_client-decoded :
    (client_id : List ℕ)
    → IsStr client_id
    → decode (encode (remove_client client_id)) ≡ inr (remove_client client_id)
unfolding encode tagged put_u8 put_u16 put_u64 put_bytes put_target read_msg read_admin_msg
    read_client_msg read_client_id
remove_client-decoded client_id h = rw (put_str-bytes (31 ∷ []) client_id h.0) (
    decode-Ends 31 (
      Ends-last _ (get_str-Reads client_id h) (Ends-at_end _ (Ends-ret (remove_client client_id)))))

pub disconnect_client-decoded :
    (client_id : List ℕ)
    → IsStr client_id
    → decode (encode (disconnect_client client_id)) ≡ inr (disconnect_client client_id)
unfolding encode tagged put_u8 put_u16 put_u64 put_bytes put_target read_msg read_admin_msg
    read_client_msg read_client_id
disconnect_client-decoded client_id h = rw (put_str-bytes (32 ∷ []) client_id h.0) (
    decode-Ends 32 (
      Ends-last _ (get_str-Reads client_id h)
        (Ends-at_end _ (Ends-ret (disconnect_client client_id)))))

pub add_client-decoded :
    (client_id : List ℕ) (secret : Option (List ℕ))
    → IsStr client_id
    → IsSecret secret
    → decode (encode (add_client client_id secret)) ≡ inr (add_client client_id secret)
unfolding encode tagged put_u8 put_u16 put_u64 put_bytes put_target read_msg read_admin_msg
    read_client_msg read_credential
add_client-decoded client_id secret h hs = rw (client_credential-bytes 29 client_id secret h) (
    decode-Ends 29 (
      Ends-map _ (take_client_credential-Ends client_id secret h hs)
        (Ends-ret (add_client client_id secret))))

pub set_client_secret-decoded :
    (client_id : List ℕ) (secret : Option (List ℕ))
    → IsStr client_id
    → IsSecret secret
    → decode (encode (set_client_secret client_id secret))
      ≡ inr (set_client_secret client_id secret)
unfolding encode tagged put_u8 put_u16 put_u64 put_bytes put_target read_msg read_admin_msg
    read_client_msg read_credential
set_client_secret-decoded client_id secret h hs =
    rw (client_credential-bytes 30 client_id secret h) (
      decode-Ends 30 (
        Ends-map _ (take_client_credential-Ends client_id secret h hs)
          (Ends-ret (set_client_secret client_id secret))))
