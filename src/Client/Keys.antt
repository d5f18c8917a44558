-- ===== src/Client/Keys.antt =====
-- GRPC/src/seckill_client.cc and GRPC/src/seckill_server.cc: the keys that the client sends are
-- those that the server registers.
use docker_compose_seckill_s.Base.{
  ℕ, ◌≤◌, ◌≡◌, sym, ap, ◌∙◌, ◌++◌, Bytes, codes, to_string, length, take-front, arith, int_max,
  length-to_string, length-append, AreBytes, AreBytes-append, to_string-AreBytes,
}
use docker_compose_seckill_s.Md5.Object
use docker_compose_seckill_s.Md5.Object.{zero_md5, hex_text}
use docker_compose_seckill_s.Md5.Stream.{generate_md5}
use docker_compose_seckill_s.Md5.Digits.{generate_md5-AreBytes}
use docker_compose_seckill_s.Md5.Reference.{md5, generate_md5-md5}
use docker_compose_seckill_s.Server.Prepare.{user_key}
use docker_compose_seckill_s.Server.Registration.{user_row}
use docker_compose_seckill_s.Client.Session.{user_request}

-- The text that is digested: name, password and salt.
abbrev pub salted : ℕ → Bytes
salted i = to_string i ++ to_string i ++ codes "salt"

salted-AreBytes : (i : ℕ) → AreBytes (salted i)
salted-AreBytes i =
    AreBytes-append (to_string i ++ to_string i) (codes "salt")
      (AreBytes-append (to_string i) (to_string i) (to_string-AreBytes i) (to_string-AreBytes i))
      (omega arith, (omega arith, (omega arith, (omega arith, tt))))

length-salted : (i : ℕ) → i ≤ int_max → length (salted i) ≤ 24
length-salted i h = omega (
  arith,
  length-append (to_string i ++ to_string i) (codes "salt"),
  length-append (to_string i) (to_string i),
  length-to_string i h,
)

user_key-md5 :
    (junk : Bytes) (i : ℕ)
    → length junk ≡ 64
    → i ≤ int_max
    → user_key junk i ≡ hex_text (md5 (salted i))
unfolding user_key Object.to_string Object.generate
user_key-md5 junk i full h = ap hex_text (
    take-front 16 (generate_md5 junk (salted i) (length (salted i))) _
      (generate_md5-AreBytes junk (salted i) (length (salted i))).1
    ∙ generate_md5-md5 junk (salted i) full (salted-AreBytes i) (omega (arith, length-salted i h)))

-- For every number of a user that an `int` holds, and whatever the 64 bytes were that the
-- contexts of client and server held: the row that the server registers has the name and the key
-- of the client's request, and the key is the MD5 digest, in hexadecimal, of RFC 1321 of name,
-- password and salt.
pub user_request-user_row :
    (client_junk server_junk : Bytes) (i : ℕ)
    → length client_junk ≡ 64
    → length server_junk ≡ 64
    → i ≤ int_max
    → let (name, key) = user_request client_junk i in
      (user_row server_junk i ≡ codes "('" ++ name ++ codes "','" ++ key ++ codes "')")
      × (key ≡ hex_text (md5 (to_string i ++ to_string i ++ codes "salt")))
user_request-user_row client_junk server_junk i full full' h =
    let e = user_key-md5 client_junk i full h in
    (
      ap (λ k. codes "('" ++ to_string i ++ codes "','" ++ k ++ codes "')")
          (user_key-md5 server_junk i full' h ∙ sym e),
      e,
    )
