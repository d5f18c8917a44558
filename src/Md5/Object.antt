-- ===== src/Md5/Object.antt =====
-- GRPC/src/Md5.cc: the class `MD5`. Its `m_data` is four words of eight bytes; a digest takes
-- the first sixteen bytes.
use Prim.Native.Nat.{bit_xor, bit_or}
use mathlib.Core.Option
use docker_compose_seckill_s.Base.{
  ℕ, zero, suc, ◌+◌, ◌-◌, ◌*◌, ◌/◌, ◌%◌, ◌^◌, Bool, ◌&&◌, [], ◌∷◌, ◌++◌, Option, none, some, Bytes,
  text_eq, take, drop, replicate, if◌then◌else◌, ltb, leb, ◌==◌, length,
}
use docker_compose_seckill_s.Md5.Stream.{generate_md5}

-- The object's 32 bytes.
abbrev pub Md5 : Type 0
Md5 = Bytes

-- `MD5::MD5()`.
abbrev pub zero_md5 : Md5
zero_md5 = replicate 32 0

-- `MD5::MD5(unsigned long*)`: the last sixteen bytes stay what they were.
unfoldable pub from_words : Bytes → Bytes → Md5
from_words junk md5src = take 16 md5src ++ drop 16 junk

-- `GenerateMD5` on an object.
unfoldable pub generate : Bytes → Md5 → Bytes → ℕ → Md5
generate junk self buffer bufferlen = generate_md5 junk buffer bufferlen ++ drop 16 self

-- `operator +`: word by word, which is byte by byte.
unfoldable pub xor_bytes : Bytes → Bytes → Bytes
xor_bytes [] ys = []
xor_bytes (x ∷ xs) [] = []
xor_bytes (x ∷ xs) (y ∷ ys) = bit_xor x y ∷ xor_bytes xs ys

unfoldable pub plus : Bytes → Md5 → Md5 → Md5
plus junk self adder = from_words junk (xor_bytes self adder)

-- `operator ==`: `memcmp` of sixteen bytes.
unfoldable pub equals : Md5 → Md5 → Bool
equals self cmper = text_eq (take 16 cmper) (take 16 self)

-- A digit of `%x`.
unfoldable pub hex_digit : ℕ → ℕ
hex_digit n = if ltb n 10 then b'0' + n else b'a' + (n - 10)

-- `%02x` of each byte.
unfoldable pub hex_text : Bytes → Bytes
hex_text [] = []
hex_text (x ∷ xs) = hex_digit (x / 16) ∷ hex_digit (x % 16) ∷ hex_text xs

unfoldable pub to_string : Md5 → Bytes
to_string self = hex_text (take 16 self)

-- The table `HexMap`.
unfoldable pub hex_value : ℕ → Option ℕ
hex_value c =
    if leb b'0' c && leb c b'9'
    then some (c - b'0')
    else if leb b'a' c && leb c b'f'
    then some (c - b'a' + 10)
    else none

-- The loop of `_httoi` from the second digit on; the result is an `int`, of which the callers
-- keep the low byte. The end of the text is no digit, so it ends the loop too.
unfoldable pub httoi_rest : Bytes → ℕ → ℕ
httoi_rest [] result = result
httoi_rest (c ∷ s) result = elim (hex_value c) [
  | none ↦ result
  | some v ↦ httoi_rest s (bit_or ((result * 16) % 2 ^ 32) v)
]

unfoldable pub httoi_digits : Bytes → ℕ
httoi_digits [] = 0
httoi_digits (c ∷ s) = elim (hex_value c) [ none ↦ 0 | some v ↦ httoi_rest s v ]

-- `_httoi` on a C text: a leading `0X` is skipped.
unfoldable pub httoi : Bytes → ℕ
httoi [] = httoi_digits []
httoi (c ∷ []) = httoi_digits (c ∷ [])
httoi (c ∷ d ∷ s) = if c == b'0' && d == b'X' then httoi_digits s else httoi_digits (c ∷ d ∷ s)

-- `strncpy(buf, s, 2)`: the end of the text is filled up with NULs.
unfoldable pub strncpy_2 : Bytes → Bytes
strncpy_2 [] = 0 ∷ 0 ∷ []
strncpy_2 (c ∷ []) = c ∷ 0 ∷ []
strncpy_2 (c ∷ d ∷ s) = c ∷ d ∷ []

-- The loop of `MD5::MD5(const char*)`, on the text that is left. The copy is not terminated:
-- `junk` is what happens to stand behind it in `buf`. `none` says that the text was too short,
-- so that the loop reads past its end.
unfoldable pub parse_bytes : ℕ → Bytes → Bytes → Option Bytes
parse_bytes zero junk md5src = some []
parse_bytes (suc n) junk md5src =
    let rest = parse_bytes n junk (drop 2 md5src) in
    let byte = httoi (strncpy_2 md5src ++ junk) % 256 in
    if n == 0
    then some (byte ∷ [])
    else if ltb (length md5src) 2
    then none
    else Option.map (◌∷◌ byte) rest

-- `self` is what the object held before.
unfoldable pub from_text : Bytes → Md5 → Bytes → Option Md5
from_text junk self [] = some zero_md5
from_text junk self (c ∷ s) =
    Option.map (λ bytes. bytes ++ drop 16 self) (parse_bytes 16 junk (c ∷ s))
