-- ===== src/Md5/Rfc.antt =====
-- The compression of RFC 1321, section 3.4, on words of 32 bits, and the macros of GRPC/src/Md5.cc
-- on their lower halves.
use Prim.Native.Nat.{differ, max, bit_or, bit_xor, bit_and}
use native.Mathlib.Nat.{mul_assoc, add-mul, div-le_self}
use docker_compose_seckill_s.Base.{
  ℕ, zero, suc, ◌+◌, ◌-◌, ◌*◌, ◌/◌, ◌%◌, ◌^◌, ◌≤◌, ◌<◌, ◌≡◌, refl, sym, ◌∙◌, ap, min, arith, Bool,
  true, false,
}
use docker_compose_seckill_s.Md5.Mask.{ones, low, low-small, bit_and-ones}
use docker_compose_seckill_s.Md5.Low.{
  digit, digit_of, low_fits, low_mod, low-bit_xor, low-bit_or, low-bit_and, low-not, bit_xor-half,
  bit_xor-rest, bit_or-half, bit_or-rest, bit_and-half, bit_and-rest,
}
use docker_compose_seckill_s.Md5.Word.{rotate, f1, f2, f3, f4, shl64}

-- The reference: the auxiliary functions and the rotation on words. G(X, Y, Z) is F(Z, X, Y).
abbrev pub word_mod : ℕ
word_mod = 2 ^ 32

abbrev pub word : ℕ → ℕ
word a = a % word_mod

abbrev pub not32 : ℕ → ℕ
not32 x = 0xffff_ffff - x

unfoldable pub rfc_f : ℕ → ℕ → ℕ → ℕ
rfc_f x y z = bit_or (bit_and x y) (bit_and (not32 x) z)

unfoldable pub rfc_g : ℕ → ℕ → ℕ → ℕ
rfc_g x y z = bit_or (bit_and z x) (bit_and (not32 z) y)

unfoldable pub rfc_h : ℕ → ℕ → ℕ → ℕ
rfc_h x y z = bit_xor (bit_xor x y) z

unfoldable pub rfc_i : ℕ → ℕ → ℕ → ℕ
rfc_i x y z = bit_xor y (bit_or x (not32 z))

unfoldable pub rotate_left : ℕ → ℕ → ℕ
rotate_left x s = bit_or ((x * 2 ^ s) % word_mod) (x / 2 ^ (32 - s))

-- F, digit by digit.
choose_digit :
    (x y z : Bool)
    → differ (digit z) (min (digit x) (differ (digit y) (digit z)))
      ≡ max (min (digit x) (digit y)) (min (1 - digit x) (digit z))
choose_digit true true true = refl
choose_digit true true false = refl
choose_digit true false true = refl
choose_digit true false false = refl
choose_digit false true true = refl
choose_digit false true false = refl
choose_digit false false true = refl
choose_digit false false false = refl

choose_rest :
    (x y z : ℕ)
    → differ (z % 2) (min (x % 2) (differ (y % 2) (z % 2)))
      ≡ max (min (x % 2) (y % 2)) (min (1 - x % 2) (z % 2))
choose_rest x y z =
    let (a, ea) = digit_of x in
    let (b, eb) = digit_of y in
    let (c, ec) = digit_of z in
    (λ i. differ (ec i) (min (ea i) (differ (eb i) (ec i))))
    ∙ choose_digit a b c
    ∙ sym (λ i. max (min (ea i) (eb i)) (min (1 - ea i) (ec i)))

halves-eq : (u v : ℕ) → u / 2 ≡ v / 2 → u % 2 ≡ v % 2 → u ≡ v
halves-eq u v h r = omega (arith, h, r)

choose-eq :
    (k x y z : ℕ)
    → x ≤ ones k
    → y ≤ ones k
    → z ≤ ones k
    → bit_xor z (bit_and x (bit_xor y z)) ≡ bit_or (bit_and x y) (bit_and (ones k - x) z)
choose-eq zero x y z hx hy hz =
    (λ i. bit_xor (ez i) (bit_and (ex i) (bit_xor (ey i) (ez i))))
    ∙ sym (λ i. bit_or (bit_and (ex i) (ey i)) (bit_and (0 - ex i) (ez i)))
  where
    ex : x ≡ 0
    ex = omega arith

    ey : y ≡ 0
    ey = omega arith

    ez : z ≡ 0
    ez = omega arith
choose-eq (suc k) x y z hx hy hz =
    halves-eq _ _
      (bit_xor-half z _
        ∙ ap (bit_xor (z / 2)) (bit_and-half x _ ∙ ap (bit_and (x / 2)) (bit_xor-half y z))
        ∙ choose-eq k (x / 2) (y / 2) (z / 2) (omega arith) (omega arith) (omega arith)
        ∙ sym (
            bit_or-half _ _
            ∙ (λ i. bit_or (bit_and-half x y i) (bit_and-half (ones (suc k) - x) z i))
            ∙ ap (λ u. bit_or (bit_and (x / 2) (y / 2)) (bit_and u (z / 2)))
                {x = (ones (suc k) - x) / 2} {y = ones k - x / 2} (omega arith)))
      (bit_xor-rest z _
        ∙ ap (differ (z % 2)) (bit_and-rest x _ ∙ ap (min (x % 2)) (bit_xor-rest y z))
        ∙ choose_rest x y z
        ∙ sym (
            bit_or-rest _ _
            ∙ (λ i. max (bit_and-rest x y i) (bit_and-rest (ones (suc k) - x) z i))
            ∙ ap (λ u. max (min (x % 2) (y % 2)) (min u (z % 2))) {x = (ones (suc k) - x) % 2}
                {y = 1 - x % 2} (omega arith)))

low-f1 : (x y z : ℕ) → low 32 (f1 x y z) ≡ rfc_f (low 32 x) (low 32 y) (low 32 z)
unfolding f1 rfc_f
low-f1 x y z =
    low-bit_xor 32 z _
    ∙ ap (bit_xor (low 32 z)) (low-bit_and 32 x _ ∙ ap (bit_and (low 32 x)) (low-bit_xor 32 y z))
    ∙ choose-eq 32 (low 32 x) (low 32 y) (low 32 z) (low_fits 32 x) (low_fits 32 y) (low_fits 32 z)

low-f2 : (x y z : ℕ) → low 32 (f2 x y z) ≡ rfc_g (low 32 x) (low 32 y) (low 32 z)
unfolding f2 f1 rfc_g rfc_f
low-f2 x y z = low-f1 z x y

low-f3 : (x y z : ℕ) → low 32 (f3 x y z) ≡ rfc_h (low 32 x) (low 32 y) (low 32 z)
unfolding f3 rfc_h
low-f3 x y z = low-bit_xor 32 _ z ∙ ap (λ t. bit_xor t (low 32 z)) (low-bit_xor 32 x y)

low-f4 : (x y z : ℕ) → z < 2 ^ 64 → low 32 (f4 x y z) ≡ rfc_i (low 32 x) (low 32 y) (low 32 z)
unfolding f4 rfc_i
low-f4 x y z h =
    low-bit_xor 32 y _
    ∙ ap (bit_xor (low 32 y)) (
        low-bit_or 32 x _
        ∙ ap (bit_or (low 32 x)) (low-not 32 64 z (omega arith) (omega (arith, h))))

-- The rotation.
low-shl64 : (x n : ℕ) → low 32 (shl64 x n) ≡ (low 32 x * 2 ^ n) % word_mod
low-shl64 x n =
    low_mod (shl64 x n)
    ∙ by_parts (x * 2 ^ n) (x % word_mod * 2 ^ n) (x / word_mod * 2 ^ n) parts
    ∙ ap (λ w. (w * 2 ^ n) % word_mod) (sym (low_mod x))
  where
    by_parts : (a b c : ℕ) → a ≡ b + word_mod * c → a % 2 ^ 64 % word_mod ≡ b % word_mod
    by_parts a b c e = omega (arith, e)

    parts : x * 2 ^ n ≡ x % word_mod * 2 ^ n + word_mod * (x / word_mod * 2 ^ n)
    parts =
        ap (λ t. t * 2 ^ n) {x = x} {y = x % word_mod + word_mod * (x / word_mod)} (omega arith)
        ∙ add-mul (x % word_mod) (word_mod * (x / word_mod)) (2 ^ n)
        ∙ ap (λ t. x % word_mod * 2 ^ n + t) (mul_assoc word_mod (x / word_mod) (2 ^ n))

low-rotate : (x n : ℕ) → low 32 (rotate x n) ≡ rotate_left (low 32 x) n
unfolding rotate rotate_left
low-rotate x n =
    low-bit_or 32 _ _
    ∙ (λ i. bit_or (low-shl64 x n i) (low 32 (bit_and-ones 32 x i / 2 ^ (32 - n))))
    ∙ ap (bit_or _) (
        low-small 32 (low 32 x / 2 ^ (32 - n))
          (omega (arith, div-le_self (low 32 x) (2 ^ (32 - n)), low_fits 32 x)))

-- What the macros compute, as words.
pub word-f1 : (x y z : ℕ) → word (f1 x y z) ≡ rfc_f (word x) (word y) (word z)
word-f1 x y z =
    sym (low_mod (f1 x y z)) ∙ low-f1 x y z ∙ (λ i. rfc_f (low_mod x i) (low_mod y i) (low_mod z i))

pub word-f2 : (x y z : ℕ) → word (f2 x y z) ≡ rfc_g (word x) (word y) (word z)
word-f2 x y z =
    sym (low_mod (f2 x y z)) ∙ low-f2 x y z ∙ (λ i. rfc_g (low_mod x i) (low_mod y i) (low_mod z i))

pub word-f3 : (x y z : ℕ) → word (f3 x y z) ≡ rfc_h (word x) (word y) (word z)
word-f3 x y z =
    sym (low_mod (f3 x y z)) ∙ low-f3 x y z ∙ (λ i. rfc_h (low_mod x i) (low_mod y i) (low_mod z i))

pub word-f4 : (x y z : ℕ) → z < 2 ^ 64 → word (f4 x y z) ≡ rfc_i (word x) (word y) (word z)
word-f4 x y z h =
    sym (low_mod (f4 x y z))
    ∙ low-f4 x y z h
    ∙ (λ i. rfc_i (low_mod x i) (low_mod y i) (low_mod z i))

pub word-rotate : (x n : ℕ) → word (rotate x n) ≡ rotate_left (word x) n
word-rotate x n =
    sym (low_mod (rotate x n)) ∙ low-rotate x n ∙ ap (λ w. rotate_left w n) (low_mod x)
