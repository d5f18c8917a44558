-- ===== src/Md5/Mask.antt =====
-- GRPC/src/Md5.cc: `& 0x3F` and `& 0xFFFFFFFF`, which keep the lowest binary digits.
use Prim.Native.Nat.{digits, bit_and, bit_and-bitwise}
use docker_compose_seckill_s.Base.{
  ℕ, zero, suc, ◌+◌, ◌*◌, ◌/◌, ◌%◌, ◌^◌, ◌≤◌, ◌<◌, ◌≡◌, refl, ◌∙◌, ap, min, arith,
}

-- The digits of `a ∧ b`, one round of fuel for each.
abbrev shared_digits : ℕ → ℕ → ℕ → ℕ
shared_digits rounds a b = digits (λ y. zero) min rounds a b

-- More rounds than `a` has digits change nothing.
shared_digits_enough : (m n a b : ℕ) → a ≤ m → a ≤ n → shared_digits m a b ≡ shared_digits n a b
shared_digits_enough zero zero a b h k = refl
shared_digits_enough zero (suc n) zero b h k = refl
shared_digits_enough zero (suc n) (suc a) b h k = absurd (omega arith)
shared_digits_enough (suc m) zero zero b h k = refl
shared_digits_enough (suc m) zero (suc a) b h k = absurd (omega arith)
shared_digits_enough (suc m) (suc n) zero b h k = refl
shared_digits_enough (suc m) (suc n) (suc a) b h k =
    ap (λ d. d * 2 + min (suc a % 2) (b % 2))
      (shared_digits_enough m n (suc a / 2) (b / 2) (omega arith) (omega arith))

pub bit_and-halves : (a b : ℕ) → bit_and a b ≡ bit_and (a / 2) (b / 2) * 2 + min (a % 2) (b % 2)
bit_and-halves zero b = omega (arith, bit_and-bitwise 0 b, bit_and-bitwise 0 (b / 2))
bit_and-halves (suc a) b = omega (
  arith,
  bit_and-bitwise (suc a) b,
  bit_and-bitwise (suc a / 2) (b / 2),
  shared_digits_enough a (suc a / 2) (suc a / 2) (b / 2) (omega arith) (omega arith),
)

-- `k` ones, and the lowest `k` digits of a number.
abbrev pub ones : ℕ → ℕ
ones zero = 0
ones (suc k) = ones k * 2 + 1

abbrev pub low : ℕ → ℕ → ℕ
low zero a = 0
low (suc k) a = low k (a / 2) * 2 + a % 2

shared_digits-zero : (n a : ℕ) → shared_digits n a 0 ≡ 0
shared_digits-zero zero a = refl
shared_digits-zero (suc n) zero = refl
shared_digits-zero (suc n) (suc a) = omega (arith, shared_digits-zero n (suc a / 2))

bit_and-zero : (a : ℕ) → bit_and a 0 ≡ 0
bit_and-zero a = bit_and-bitwise a 0 ∙ shared_digits-zero a a

pub bit_and-ones : (k a : ℕ) → bit_and a (ones k) ≡ low k a
bit_and-ones zero a = bit_and-zero a
bit_and-ones (suc k) a =
    bit_and-halves a (ones (suc k))
    ∙ ap (λ b. bit_and (a / 2) b * 2 + min (a % 2) (ones (suc k) % 2)) {x = ones (suc k) / 2}
        {y = ones k} (omega arith)
    ∙ omega (arith, bit_and-ones k (a / 2))

pub low-small : (k a : ℕ) → a ≤ ones k → low k a ≡ a
low-small zero a h = omega arith
low-small (suc k) a h = omega (arith, low-small k (a / 2) (omega arith))

low_six : (a : ℕ) → low 6 a ≡ a % 64
low_six a = omega arith

pub bit_and_63 : (a : ℕ) → bit_and a 0x3f ≡ a % 64
bit_and_63 a = bit_and-ones 6 a ∙ low_six a

pub bit_and_uint32 : (a : ℕ) → a < 2 ^ 32 → bit_and a 0xffff_ffff ≡ a
bit_and_uint32 a h = bit_and-ones 32 a ∙ low-small 32 a (omega arith)

low_eight : (a : ℕ) → low 8 a ≡ a % 256
low_eight a = omega arith

pub bit_and_255 : (a : ℕ) → bit_and a 0xff ≡ a % 256
bit_and_255 a = bit_and-ones 8 a ∙ low_eight a
