-- ===== src/Md5/Word.antt =====
-- GRPC/src/Md5.cc: `uint32` is `unsigned long int`, which has 64 bits on the servers' Linux, so
-- a "32-bit" value may carry anything in its upper half. The macros on such words.
use Prim.Native.Nat.{bit_and, bit_or, bit_xor}
use docker_compose_seckill_s.Base.{ℕ, ◌+◌, ◌-◌, ◌*◌, ◌/◌, ◌%◌, ◌^◌, [], ◌∷◌, Bytes, get_or}

abbrev pub ulong_mod : ℕ
ulong_mod = 2 ^ 64

abbrev pub add64 : ℕ → ℕ → ℕ
add64 a b = (a + b) % ulong_mod

abbrev pub shl64 : ℕ → ℕ → ℕ
shl64 x n = (x * 2 ^ n) % ulong_mod

abbrev pub shr : ℕ → ℕ → ℕ
shr x n = x / 2 ^ n

-- `~x`.
abbrev pub not64 : ℕ → ℕ
not64 x = ulong_mod - 1 - x

-- The macro `S`.
unfoldable pub rotate : ℕ → ℕ → ℕ
rotate x n = bit_or (shl64 x n) (shr (bit_and x 0xffff_ffff) (32 - n))

-- The four definitions of the macro `F`.
unfoldable pub f1 : ℕ → ℕ → ℕ → ℕ
f1 x y z = bit_xor z (bit_and x (bit_xor y z))

unfoldable pub f2 : ℕ → ℕ → ℕ → ℕ
f2 x y z = bit_xor y (bit_and z (bit_xor x y))

unfoldable pub f3 : ℕ → ℕ → ℕ → ℕ
f3 x y z = bit_xor (bit_xor x y) z

unfoldable pub f4 : ℕ → ℕ → ℕ → ℕ
f4 x y z = bit_xor y (bit_or x (not64 z))

-- `GET_UINT32`: four bytes at `i`, the lowest first.
unfoldable pub get_uint32 : Bytes → ℕ → ℕ
get_uint32 b i =
    bit_or
      (bit_or (bit_or (get_or b i 0) (shl64 (get_or b (i + 1) 0) 8))
        (shl64 (get_or b (i + 2) 0) 16))
      (shl64 (get_or b (i + 3) 0) 24)

-- The bytes that `PUT_UINT32` writes.
unfoldable pub put_uint32 : ℕ → Bytes
put_uint32 n =
    bit_and n 0xff ∷ bit_and (shr n 8) 0xff ∷ bit_and (shr n 16) 0xff ∷ bit_and (shr n 24) 0xff ∷ []
