-- ===== src/Tests/Digests.antt =====
-- The theorems about the digest, at concrete inputs.
use docker_compose_seckill_s.Base.{
  ℕ, length-replicate, ◌*◌, ◌/◌, all_bytes, all_bytes-AreBytes, ◌≡◌, refl, to_string, [], ◌∷◌, ◌++◌,
  ◌+◌, ◌%◌, ◌^◌, some, Bytes, codes, replicate, length, arith,
}
use docker_compose_seckill_s.Md5.Process.{md5_starts, md5_process, words, operate, operate_all}
use docker_compose_seckill_s.Md5.Stream.{
  md5_update, md5_finish, generate_md5, count_bits, fill_buffer, absorb, whole_blocks, memcpy_at,
}
use docker_compose_seckill_s.Md5.Digest.{Represents, md5_update-Represents}
use docker_compose_seckill_s.Md5.Padded.{md5_starts-Represents}
use docker_compose_seckill_s.Md5.Word.{rotate, f1, f2, f3, f4, get_uint32, put_uint32}
use docker_compose_seckill_s.Md5.Object
use docker_compose_seckill_s.Md5.Object.{zero_md5}
use docker_compose_seckill_s.Md5.Disjoint.{put_uint32-get_uint32}
use docker_compose_seckill_s.Client.Session.{user_request}
use docker_compose_seckill_s.Client.Keys.{user_request-user_row}
use docker_compose_seckill_s.Server.Registration.{user_row}
use docker_compose_seckill_s.Md5.Carry.{md5_update_twice}
use docker_compose_seckill_s.Md5.Hex.{from_text-to_string, httoi-stranger}
use docker_compose_seckill_s.Md5.Reference.{md5, generate_md5-md5}

-- The first user's key, as `prepareForSeckill` makes it.
abbrev first_user : Bytes
first_user = codes "11salt"

generate_md5-md5_example :
    generate_md5 (replicate 64 7) first_user (length first_user) ≡ md5 first_user
unfolding all_bytes
generate_md5-md5_example =
    generate_md5-md5 (replicate 64 7) first_user refl (all_bytes-AreBytes first_user refl)
      (omega arith)

-- 80 bytes in two pieces, the second of which fills the buffer.
md5_update-Represents_example :
    Represents
      (md5_update
        (md5_update (md5_starts (replicate 64 7)) (replicate 30 65) 30)
        (replicate 50 66)
        50)
      (replicate 30 65 ++ replicate 50 66)
md5_update-Represents_example =
    md5_update-Represents (md5_update (md5_starts (replicate 64 7)) (replicate 30 65) 30)
      (replicate 30 65) (replicate 50 66)
      (md5_update-Represents (md5_starts (replicate 64 7)) [] (replicate 30 65)
        (md5_starts-Represents (replicate 64 7) refl) (omega arith))
      (omega arith)

-- A word at offset 4.
put_uint32-get_uint32_example :
    (put_uint32 (get_uint32 (replicate 4 7 ++ 1 ∷ 2 ∷ 3 ∷ 255 ∷ []) 4) ≡ 1 ∷ 2 ∷ 3 ∷ 255 ∷ [])
    × (get_uint32 (replicate 4 7 ++ put_uint32 (2 ^ 32 + 5) ++ []) 4 ≡ 5)
put_uint32-get_uint32_example =
    put_uint32-get_uint32 (replicate 4 7) [] 1 2 3 255 (2 ^ 32 + 5) (omega arith) (omega arith)
      (omega arith) (omega arith)

-- The bytes 0 to 15, printed and read with an `x` behind the two digits in the buffer.
abbrev sixteen : Bytes
sixteen = 0 ∷ 1 ∷ 2 ∷ 3 ∷ 4 ∷ 5 ∷ 6 ∷ 7 ∷ 8 ∷ 9 ∷ 10 ∷ 11 ∷ 12 ∷ 13 ∷ 14 ∷ 255 ∷ []

from_text-to_string_example :
    Object.from_text
      (codes "x")
      zero_md5
      (Object.to_string (sixteen ++ replicate 16 7) ++ codes "!")
    ≡ some (sixteen ++ replicate 16 0)
unfolding Object.hex_value all_bytes
from_text-to_string_example =
    from_text-to_string (codes "x") zero_md5 (codes "!") (sixteen ++ replicate 16 7) (omega arith)
      (all_bytes-AreBytes sixteen refl) refl

-- `4f` with a `1` behind it is read as f1.
httoi-stranger_example :
    Object.httoi (Object.strncpy_2 (Object.hex_text (79 ∷ [])) ++ Object.hex_digit 1 ∷ codes "x")
      % 256
    ≡ 241
unfolding Object.hex_value
httoi-stranger_example = httoi-stranger (codes "x") 79 1 refl (omega arith) (omega arith)

-- 2^29 bytes.
letters : ℕ → Bytes
letters n = replicate n 65

length-letters : (n : ℕ) → length (letters n) ≡ n
unfolding letters
length-letters n = length-replicate n 65

md5_update_twice_example :
    let ctx =
      md5_update (md5_starts (replicate 64 7)) (letters (2 ^ 29)) (length (letters (2 ^ 29))) in
    (ctx.total0 ≡ length (letters (2 ^ 29)) * 8 % 2 ^ 32)
    × (ctx.total1 ≡ length (letters (2 ^ 29)) * 8 / 2 ^ 32 + 1)
md5_update_twice_example =
    md5_update_twice (replicate 64 7) (letters (2 ^ 29)) (omega (arith, length-letters (2 ^ 29)))
      (omega (arith, length-letters (2 ^ 29)))

-- The key of user 1.
first_key :
    Object.to_string (Object.generate (replicate 64 7) zero_md5 first_user 6)
    ≡ codes "6ac4aba3de9d38ef21c9b50c356085ec"
unfolding Object.to_string Object.generate Object.hex_text Object.hex_digit generate_md5 md5_finish
    md5_update md5_starts count_bits fill_buffer absorb whole_blocks memcpy_at md5_process words
    operate operate_all rotate f1 f2 f3 f4 get_uint32 put_uint32
first_key = refl

-- User 300, with different stacks.
user_request-user_row_example :
    let (name, key) = user_request (replicate 64 7) 300 in
    (user_row (replicate 64 9) 300 ≡ codes "('" ++ name ++ codes "','" ++ key ++ codes "')")
    × (key ≡ Object.hex_text (md5 (to_string 300 ++ to_string 300 ++ codes "salt")))
user_request-user_row_example =
    user_request-user_row (replicate 64 7) (replicate 64 9) 300 refl refl (omega arith)
