-- ===== src/Md5/Disjoint.antt =====
-- GRPC/src/Md5.cc: `|` of numbers that share no digit is their sum, so GET_UINT32 and PUT_UINT32
-- are the two ways between four bytes and a number.
use Prim.Native.Nat.{bit_or, bit_and, max, bit_or-bitwise}
use native.Mathlib.Nat.{mul_assoc}
use docker_compose_seckill_s.Base.{
  ℕ, zero, suc, ◌+◌, ◌*◌, ◌/◌, ◌%◌, ◌^◌, ◌≤◌, ◌<◌, ◌≡◌, ap, ◌∙◌, [], ◌∷◌, Bytes, get_or, length,
  ◌++◌, append_assoc, arith,
}
use docker_compose_seckill_s.Md5.Mask.{ones, bit_and_255}
use docker_compose_seckill_s.Md5.Low.{bit_or-halves, power}
use docker_compose_seckill_s.Md5.Word.{get_uint32, put_uint32, shl64, shr}

bit_or_zero_below : (k a : ℕ) → a ≤ ones k → bit_or a 0 ≡ a
bit_or_zero_below zero a h =
    ap (λ x. bit_or x 0) {x = a} {y = 0} (omega arith) ∙ bit_or-bitwise 0 0 ∙ omega arith
bit_or_zero_below (suc k) a h =
    omega (arith, bit_or-halves a 0, bit_or_zero_below k (a / 2) (omega (arith, h)))

bit_or_small_first : (k a b : ℕ) → b ≤ ones k → bit_or b (power k * a) ≡ power k * a + b
bit_or_small_first zero a b h =
    ap (λ x. bit_or x (1 * a)) {x = b} {y = 0} (omega arith)
    ∙ bit_or-bitwise 0 (1 * a)
    ∙ omega arith
bit_or_small_first (suc k) a b h =
    ap (bit_or b) {y = 2 * (power k * a)} (omega (arith, mul_assoc 2 (power k) a))
    ∙ bit_or-halves b (2 * (power k * a))
    ∙ ap (λ x. bit_or (b / 2) x * 2 + max (b % 2) (2 * (power k * a) % 2)) {y = power k * a}
        (omega arith)
    ∙ omega (arith, bit_or_small_first k a (b / 2) (omega (arith, h)), mul_assoc 2 (power k) a)

bit_or_small_last :
    (k j a b : ℕ) → a ≤ ones j → b ≤ ones k → bit_or (power k * a) b ≡ power k * a + b
bit_or_small_last zero j a b small h =
    ap (bit_or (1 * a)) {x = b} {y = 0} (omega arith)
    ∙ ap (λ x. bit_or x 0) {x = 1 * a} {y = a} (omega arith)
    ∙ bit_or_zero_below j a small
    ∙ omega arith
bit_or_small_last (suc k) j a b small h =
    ap (λ x. bit_or x b) {y = 2 * (power k * a)} (omega (arith, mul_assoc 2 (power k) a))
    ∙ bit_or-halves (2 * (power k * a)) b
    ∙ ap (λ x. bit_or x (b / 2) * 2 + max (2 * (power k * a) % 2) (b % 2)) {y = power k * a}
        (omega arith)
    ∙ omega
        (arith, bit_or_small_last k j a (b / 2) small (omega (arith, h)), mul_assoc 2 (power k) a)

-- A hexadecimal digit behind another one.
pub bit_or_hex : (a b : ℕ) → a < 2 ^ 28 → b < 16 → bit_or (a * 16 % 2 ^ 32) b ≡ a * 16 + b
bit_or_hex a b h k =
    ap (λ x. bit_or x b) {x = a * 16 % 2 ^ 32} {y = 16 * a} (omega (arith, h))
    ∙ bit_or_small_last 4 28 a b (omega (arith, h)) (omega (arith, k))
    ∙ omega arith

-- Four bytes as a number, the lowest first.
abbrev pub of_bytes : ℕ → ℕ → ℕ → ℕ → ℕ
of_bytes b0 b1 b2 b3 = b0 + 256 * b1 + 65536 * b2 + 16777216 * b3

module _ (b0 b1 b2 b3 : ℕ) (h0 : b0 < 256) (h1 : b1 < 256) (h2 : b2 < 256) (h3 : b3 < 256) where
  -- GET_UINT32 on a text that begins with four bytes.
  pub get_uint32-of_bytes :
      (rest : Bytes) → get_uint32 (b0 ∷ b1 ∷ b2 ∷ b3 ∷ rest) 0 ≡ of_bytes b0 b1 b2 b3
  unfolding get_uint32
  get_uint32-of_bytes rest =
      (λ i. bit_or (bit_or (bit_or b0 (first i)) (second i)) (third i))
      ∙ ap (λ x. bit_or (bit_or x (65536 * b2)) (16777216 * b3))
          (bit_or_small_first 8 b1 b0 (omega (arith, h0)))
      ∙ ap (λ x. bit_or x (16777216 * b3))
          (bit_or_small_first 16 b2 (256 * b1 + b0) (omega (arith, h0, h1)))
      ∙ bit_or_small_first 24 b3 (65536 * b2 + (256 * b1 + b0)) (omega (arith, h0, h1, h2))
      ∙ omega arith
    where
      first : shl64 b1 8 ≡ 256 * b1
      first = omega (arith, h1)

      second : shl64 b2 16 ≡ 65536 * b2
      second = omega (arith, h2)

      third : shl64 b3 24 ≡ 16777216 * b3
      third = omega (arith, h3)

  put_uint32-of_bytes : put_uint32 (of_bytes b0 b1 b2 b3) ≡ b0 ∷ b1 ∷ b2 ∷ b3 ∷ []
  unfolding put_uint32
  put_uint32-of_bytes = λ i.
      lowest i
      ∷ byte 8 b1 (omega (arith, h0, h1)) i
      ∷ byte 16 b2 (omega (arith, h0, h1, h2)) i
      ∷ byte 24 b3 (omega (arith, h0, h1, h2, h3)) i
      ∷ []
    where
      lowest : bit_and (of_bytes b0 b1 b2 b3) 0xff ≡ b0
      lowest = bit_and_255 (of_bytes b0 b1 b2 b3) ∙ omega (arith, h0)

      byte :
          (k b : ℕ)
          → of_bytes b0 b1 b2 b3 / 2 ^ k % 256 ≡ b
          → bit_and (shr (of_bytes b0 b1 b2 b3) k) 0xff ≡ b
      byte k b e = bit_and_255 (shr (of_bytes b0 b1 b2 b3) k) ∙ e

get_or-append : (xs ys : Bytes) (i : ℕ) → get_or (xs ++ ys) (length xs + i) 0 ≡ get_or ys i 0
get_or-append [] ys i = ap (λ k. get_or ys k 0) (omega arith)
get_or-append (x ∷ xs) ys i =
    ap (λ k. get_or (x ∷ xs ++ ys) k 0) {x = suc (length xs) + i} {y = suc (length xs + i)}
      (omega arith)
    ∙ get_or-append xs ys i

get_uint32-append : (xs ys : Bytes) → get_uint32 (xs ++ ys) (length xs) ≡ get_uint32 ys 0
unfolding get_uint32
get_uint32-append xs ys = λ i.
    bit_or
      (bit_or (bit_or (zeroth i) (shl64 (get_or-append xs ys 1 i) 8))
        (shl64 (get_or-append xs ys 2 i) 16))
      (shl64 (get_or-append xs ys 3 i) 24)
  where
    zeroth : get_or (xs ++ ys) (length xs) 0 ≡ get_or ys 0 0
    zeroth =
        ap (λ k. get_or (xs ++ ys) k 0) {y = length xs + 0} (omega arith) ∙ get_or-append xs ys 0

pub put_uint32_lem :
    (n : ℕ) → put_uint32 n ≡ n % 256 ∷ n / 2 ^ 8 % 256 ∷ n / 2 ^ 16 % 256 ∷ n / 2 ^ 24 % 256 ∷ []
unfolding put_uint32
put_uint32_lem n = λ i.
    bit_and_255 n i
    ∷ bit_and_255 (shr n 8) i
    ∷ bit_and_255 (shr n 16) i
    ∷ bit_and_255 (shr n 24) i
    ∷ []

-- PUT_UINT32 writes back the four bytes that GET_UINT32 read anywhere in a text; and GET_UINT32
-- reads, of a number that PUT_UINT32 wrote, its lowest 32 digits.
pub put_uint32-get_uint32 :
    (before after : Bytes) (b0 b1 b2 b3 n : ℕ)
    → b0 < 256
    → b1 < 256
    → b2 < 256
    → b3 < 256
    → (put_uint32 (get_uint32 (before ++ b0 ∷ b1 ∷ b2 ∷ b3 ∷ after) (length before))
        ≡ b0 ∷ b1 ∷ b2 ∷ b3 ∷ [])
      × (get_uint32 (before ++ put_uint32 n ++ after) (length before) ≡ n % 2 ^ 32)
put_uint32-get_uint32 before after b0 b1 b2 b3 n h0 h1 h2 h3 = (
  ap put_uint32 (
        get_uint32-append before (b0 ∷ b1 ∷ b2 ∷ b3 ∷ after)
        ∙ get_uint32-of_bytes b0 b1 b2 b3 h0 h1 h2 h3 after)
      ∙ put_uint32-of_bytes b0 b1 b2 b3 h0 h1 h2 h3,
  written,
)
  where
    b : ℕ → ℕ
    b k = n / 2 ^ k % 256

    written : get_uint32 (before ++ put_uint32 n ++ after) (length before) ≡ n % 2 ^ 32
    written =
        ap (λ t. get_uint32 t (length before)) (append_assoc before (put_uint32 n) after)
        ∙ get_uint32-append before (put_uint32 n ++ after)
        ∙ ap (λ t. get_uint32 (t ++ after) 0) (put_uint32_lem n)
        ∙ get_uint32-of_bytes (n % 256) (b 8) (b 16) (b 24) (omega arith) (omega arith)
            (omega arith) (omega arith) after
        ∙ omega arith
