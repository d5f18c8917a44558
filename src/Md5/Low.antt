-- ===== src/Md5/Low.antt =====
-- GRPC/src/Md5.cc: the lower 32 digits of a `uint32`, which has 64, under the operations of
-- `md5_process`.
use Prim.Native.Nat.{digits, differ, max, bit_or, bit_xor, bit_and, bit_or-bitwise, bit_xor-bitwise}
use native.Mathlib.Nat.{mul_assoc}
use docker_compose_seckill_s.Base.{
  ℕ, zero, suc, ◌+◌, ◌-◌, ◌*◌, ◌/◌, ◌%◌, ◌^◌, ◌≤◌, ◌<◌, ◌≡◌, refl, sym, ◌∙◌, ap, subst, min, arith,
  Bool, true, false,
}
use docker_compose_seckill_s.Md5.Mask.{ones, low, bit_and-halves}

pub low_fits : (k a : ℕ) → low k a ≤ ones k
low_fits zero a = omega arith
low_fits (suc k) a = omega (arith, low_fits k (a / 2))

-- A digit.
abbrev pub digit : Bool → ℕ
digit true = 1
digit false = 0

pub digit_of : (a : ℕ) → (b : Bool) × (a % 2 ≡ digit b)
digit_of a = by_rest (a % 2) refl
  where
    by_rest : (d : ℕ) → a % 2 ≡ d → (b : Bool) × (a % 2 ≡ digit b)
    by_rest zero e = (false, e)
    by_rest (suc zero) e = (true, e)
    by_rest (suc (suc d)) e = absurd (omega arith)

module _ (z : ℕ → ℕ) (f : ℕ → ℕ → ℕ) where
  digits_enough : (m n a b : ℕ) → a ≤ m → a ≤ n → digits z f m a b ≡ digits z f n a b
  digits_enough zero zero a b h k = refl
  digits_enough zero (suc n) zero b h k = refl
  digits_enough zero (suc n) (suc a) b h k = absurd (omega arith)
  digits_enough (suc m) zero zero b h k = refl
  digits_enough (suc m) zero (suc a) b h k = absurd (omega arith)
  digits_enough (suc m) (suc n) zero b h k = refl
  digits_enough (suc m) (suc n) (suc a) b h k =
      ap (λ d. d * 2 + f (suc a % 2) (b % 2))
        (digits_enough m n (suc a / 2) (b / 2) (omega arith) (omega arith))

bit_xor-halves : (a b : ℕ) → bit_xor a b ≡ bit_xor (a / 2) (b / 2) * 2 + differ (a % 2) (b % 2)
bit_xor-halves zero b = omega (arith, bit_xor-bitwise 0 b, bit_xor-bitwise 0 (b / 2))
bit_xor-halves (suc a) b = omega (
  arith,
  bit_xor-bitwise (suc a) b,
  bit_xor-bitwise (suc a / 2) (b / 2),
  digits_enough (λ y. y) differ a (suc a / 2) (suc a / 2) (b / 2) (omega arith) (omega arith),
)

pub bit_or-halves : (a b : ℕ) → bit_or a b ≡ bit_or (a / 2) (b / 2) * 2 + max (a % 2) (b % 2)
bit_or-halves zero b = omega (arith, bit_or-bitwise 0 b, bit_or-bitwise 0 (b / 2))
bit_or-halves (suc a) b = omega (
  arith,
  bit_or-bitwise (suc a) b,
  bit_or-bitwise (suc a / 2) (b / 2),
  digits_enough (λ y. y) max a (suc a / 2) (suc a / 2) (b / 2) (omega arith) (omega arith),
)

-- An operation that works digit by digit commutes with taking the lowest digits.
module _ (op f : ℕ → ℕ → ℕ)
    (op-halves : (a b : ℕ) → op a b ≡ op (a / 2) (b / 2) * 2 + f (a % 2) (b % 2))
    (digitwise : (x y : Bool) → f (digit x) (digit y) < 2) (op-zero : op 0 0 ≡ 0) where
  below_two : (a b : ℕ) → f (a % 2) (b % 2) < 2
  below_two a b =
      let (x, e) = digit_of a in
      let (y, e') = digit_of b in subst (λ n. n < 2) (sym (λ i. f (e i) (e' i))) (digitwise x y)

  op-half : (a b : ℕ) → op a b / 2 ≡ op (a / 2) (b / 2)
  op-half a b = omega (arith, op-halves a b, below_two a b)

  op-rest : (a b : ℕ) → op a b % 2 ≡ f (a % 2) (b % 2)
  op-rest a b = omega (arith, op-halves a b, below_two a b)

  low-half : (k a : ℕ) → low (suc k) a / 2 ≡ low k (a / 2)
  low-half k a = omega arith

  low-rest : (k a : ℕ) → low (suc k) a % 2 ≡ a % 2
  low-rest k a = omega arith

  pub low-op : (k a b : ℕ) → low k (op a b) ≡ op (low k a) (low k b)
  low-op zero a b = sym op-zero
  low-op (suc k) a b =
      (λ i. low k (op-half a b i) * 2 + op-rest a b i)
      ∙ (λ i. low-op k (a / 2) (b / 2) i * 2 + f (a % 2) (b % 2))
      ∙ sym (λ i. op (low-half k a i) (low-half k b i) * 2 + f (low-rest k a i) (low-rest k b i))
      ∙ sym (op-halves (low (suc k) a) (low (suc k) b))

differ_digitwise : (x y : Bool) → differ (digit x) (digit y) < 2
differ_digitwise true true = omega arith
differ_digitwise true false = omega arith
differ_digitwise false true = omega arith
differ_digitwise false false = omega arith

max_digitwise : (x y : Bool) → max (digit x) (digit y) < 2
max_digitwise true true = omega arith
max_digitwise true false = omega arith
max_digitwise false true = omega arith
max_digitwise false false = omega arith

min_digitwise : (x y : Bool) → min (digit x) (digit y) < 2
min_digitwise true y = omega arith
min_digitwise false y = omega arith

pub low-bit_xor : (k a b : ℕ) → low k (bit_xor a b) ≡ bit_xor (low k a) (low k b)
low-bit_xor = low-op bit_xor differ bit_xor-halves differ_digitwise refl

pub low-bit_or : (k a b : ℕ) → low k (bit_or a b) ≡ bit_or (low k a) (low k b)
low-bit_or = low-op bit_or max bit_or-halves max_digitwise refl

pub low-bit_and : (k a b : ℕ) → low k (bit_and a b) ≡ bit_and (low k a) (low k b)
low-bit_and = low-op bit_and min bit_and-halves min_digitwise refl

pub bit_xor-half : (a b : ℕ) → bit_xor a b / 2 ≡ bit_xor (a / 2) (b / 2)
bit_xor-half = op-half bit_xor differ bit_xor-halves differ_digitwise refl

pub bit_xor-rest : (a b : ℕ) → bit_xor a b % 2 ≡ differ (a % 2) (b % 2)
bit_xor-rest = op-rest bit_xor differ bit_xor-halves differ_digitwise refl

pub bit_or-half : (a b : ℕ) → bit_or a b / 2 ≡ bit_or (a / 2) (b / 2)
bit_or-half = op-half bit_or max bit_or-halves max_digitwise refl

pub bit_or-rest : (a b : ℕ) → bit_or a b % 2 ≡ max (a % 2) (b % 2)
bit_or-rest = op-rest bit_or max bit_or-halves max_digitwise refl

pub bit_and-half : (a b : ℕ) → bit_and a b / 2 ≡ bit_and (a / 2) (b / 2)
bit_and-half = op-half bit_and min bit_and-halves min_digitwise refl

pub bit_and-rest : (a b : ℕ) → bit_and a b % 2 ≡ min (a % 2) (b % 2)
bit_and-rest = op-rest bit_and min bit_and-halves min_digitwise refl

-- `~` on numbers of `n` digits.
pub low-not : (k n a : ℕ) → k ≤ n → a ≤ ones n → low k (ones n - a) ≡ ones k - low k a
low-not zero n a h small = refl
low-not (suc k) zero a h small = absurd (omega arith)
low-not (suc k) (suc n) a h small =
    (λ i. low k (half i) * 2 + rest i)
    ∙ omega (arith, low-not k n (a / 2) (omega arith) (omega arith), low_fits k (a / 2))
  where
    half : (ones (suc n) - a) / 2 ≡ ones n - a / 2
    half = omega (arith, small)

    rest : (ones (suc n) - a) % 2 ≡ 1 - a % 2
    rest = omega (arith, small)

abbrev pub power : ℕ → ℕ
power zero = 1
power (suc k) = 2 * power k

abbrev high : ℕ → ℕ → ℕ
high zero a = a
high (suc k) a = high k (a / 2)

low-high : (k a : ℕ) → a ≡ low k a + power k * high k a
low-high zero a = omega arith
low-high (suc k) a = omega (arith, low-high k (a / 2), mul_assoc 2 (power k) (high k (a / 2)))

pub low_mod : (a : ℕ) → low 32 a ≡ a % 2 ^ 32
low_mod a = by_rest (low 32 a) (high 32 a) (low-high 32 a) (low_fits 32 a)
  where
    by_rest : (l h : ℕ) → a ≡ l + 4_294_967_296 * h → l ≤ 4_294_967_295 → l ≡ a % 2 ^ 32
    by_rest l h e small = omega (arith, e, small)
