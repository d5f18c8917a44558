-- ===== src/Base/Text.antt =====
-- Text as bytes, and what the sources use of the C and C++ libraries on it: `std::to_string`,
-- `atoi`, `strcasecmp`, comparison of strings.
use Prim.Native.Nat.{ℕ, zero, suc, ◌+◌, ◌-◌, ◌*◌, ◌/◌, ◌%◌, ◌^◌, ◌≤◌, ◌<◌}
use Prim.Native.Char.{code}
use Prim.Native.String.{String}
use mathlib.Core.Path.{◌≡◌, refl, sym, ap, ◌∙◌}
use mathlib.Core.Bool.{Bool, true, false, ◌&&◌, ◌||◌}
use mathlib.Core.Logic.{inl, inr}
use mathlib.Core.Option.{Option, none, some}
use mathlib.Core.List.{List, [], ◌∷◌, ◌++◌}
use native.Mathlib.Omega.{arith}
use docker_compose_seckill_s.Base.Lists.{length}
use docker_compose_seckill_s.Base.Tests.{ltb, leb, ◌==◌, if◌then◌else◌, ltb→lt, Bool-cases}

abbrev pub Bytes : Type 0
Bytes = List ℕ

abbrev pub codes : String → Bytes
codes String.[] = []
codes (String.◌∷◌ c s) = code c ∷ codes s

-- Equality of two strings.
unfoldable pub text_eq : Bytes → Bytes → Bool
text_eq [] [] = true
text_eq [] (y ∷ ys) = false
text_eq (x ∷ xs) [] = false
text_eq (x ∷ xs) (y ∷ ys) = x == y && text_eq xs ys

pub text_eq_refl : (xs : Bytes) → text_eq xs xs ≡ true
unfolding text_eq
text_eq_refl [] = refl
text_eq_refl (x ∷ xs) = ground (arith, text_eq_refl xs)

pub text_eq→eq : (xs ys : Bytes) → text_eq xs ys ≡ true → xs ≡ ys
unfolding text_eq
text_eq→eq [] [] h = refl
text_eq→eq [] (y ∷ ys) h = cc
text_eq→eq (x ∷ xs) [] h = cc
text_eq→eq (x ∷ xs) (y ∷ ys) h = ground (arith, text_eq→eq xs ys)

-- The digits of a number in front of `out`, most significant first.
unfoldable pub emit : ℕ → ℕ → Bytes → Bytes
emit zero n out = out
emit (suc fuel) n out =
    let rest = emit fuel (n / 10) ((48 + n % 10) ∷ out) in if ltb n 10 then (48 + n) ∷ out else rest

-- `std::to_string` and `%d` of a number that is not negative.
unfoldable pub to_string : ℕ → Bytes
unfolding emit
to_string n = emit (suc n) n []

-- The result of `atoi`: `negsuc n` is -(n + 1).
pub data ℤ : Type 0 where
  pos : ℕ → ℤ
  negsuc : ℕ → ℤ

abbrev pub pos_part : ℤ → ℕ
pos_part (pos n) = n
pos_part (negsuc n) = 0

abbrev pub int_max : ℕ
int_max = 2 ^ 31 - 1

-- Adds the leading digits of a text to a number.
unfoldable pub scan : Bytes → ℕ → ℕ
scan [] n = n
scan (c ∷ s) n = if leb b'0' c && leb c b'9' then scan s (n * 10 + (c - 48)) else n

is_space : ℕ → Bool
is_space c = c == 32 || (leb 9 c && leb c 13)

-- A value that an `int` cannot hold is undefined behaviour: `none`.
to_int : ℕ → Option ℤ
to_int n = if leb n int_max then some (pos n) else none

to_negative_int : ℕ → Option ℤ
to_negative_int n =
    if n == 0 then some (pos 0) else if leb n (2 ^ 31) then some (negsuc (n - 1)) else none

to_int_lem : (n : ℕ) → n ≤ int_max → to_int n ≡ some (pos n)
unfolding to_int
to_int_lem n h = ground arith

sign : Bytes → Option ℤ
unfolding scan to_int to_negative_int
sign [] = some (pos 0)
sign (c ∷ s) =
    if c == b'-'
    then to_negative_int (scan s 0)
    else if c == b'+'
    then to_int (scan s 0)
    else to_int (scan (c ∷ s) 0)

-- `atoi`: white space, a sign, digits; what follows is not read.
unfoldable pub atoi : Bytes → Option ℤ
unfolding sign is_space
atoi [] = sign []
atoi (c ∷ s) = if is_space c then atoi s else sign (c ∷ s)

lower : ℕ → ℕ
lower c = if leb b'A' c && leb c b'Z' then c + 32 else c

-- `strcasecmp(a, b) == 0`.
unfoldable pub same_ignoring_case : Bytes → Bytes → Bool
unfolding lower
same_ignoring_case [] [] = true
same_ignoring_case [] (y ∷ ys) = false
same_ignoring_case (x ∷ xs) [] = false
same_ignoring_case (x ∷ xs) (y ∷ ys) = lower x == lower y && same_ignoring_case xs ys

scan-emit : (f n : ℕ) (out : Bytes) → n < f → scan (emit f n out) 0 ≡ scan out n
unfolding emit scan
scan-emit zero n out h = elim h [ ]
scan-emit (suc f) n out h = ground (arith, scan-emit f (n / 10) ((48 + n % 10) ∷ out))

-- A digit is where the digits of a number begin, so `atoi` sees neither a space nor a sign.
emit_head :
    (f n : ℕ) (out : Bytes)
    → n < f
    → (c : ℕ) × (s : Bytes) × (emit f n out ≡ c ∷ s) × (48 ≤ c) × (c ≤ 57)
unfolding emit
emit_head zero n out h = elim h [ ]
emit_head (suc f) n out h = elim (Bool-cases (ltb n 10)) [
  | inl small ↦ (48 + n, out, rw small, omega (arith, ltb→lt n 10), omega (arith, ltb→lt n 10))
  | inr large ↦ rw large (emit_head f (n / 10) ((48 + n % 10) ∷ out) (ground arith))
]

atoi_digit : (c : ℕ) (s : Bytes) → 48 ≤ c → c ≤ 57 → atoi (c ∷ s) ≡ to_int (scan (c ∷ s) 0)
unfolding atoi
atoi_digit c s lo hi = ground arith

emit-append : (f n : ℕ) (out rest : Bytes) → emit f n out ++ rest ≡ emit f n (out ++ rest)
unfolding emit
emit-append zero n out rest = refl
emit-append (suc f) n out rest = ground (arith, emit-append f (n / 10) ((48 + n % 10) ∷ out) rest)

-- Reading a printed number in front of what is no digit; a large one is refused.
pub atoi-to_string_append :
    (n : ℕ) (rest : Bytes)
    → scan rest n ≡ n
    → atoi (to_string n ++ rest) ≡ (if leb n int_max then some (pos n) else none)
unfolding to_string to_int
atoi-to_string_append n rest stop =
    let (c, s, e, lo, hi) = emit_head (suc n) n rest (omega arith) in
    ap atoi (emit-append (suc n) n [] rest ∙ e)
    ∙ atoi_digit c s lo hi
    ∙ ap to_int (ap (λ t. scan t 0) (sym e) ∙ scan-emit (suc n) n rest (omega arith) ∙ stop)

-- Reading back what was printed.
pub atoi-to_string : (n : ℕ) → n ≤ int_max → atoi (to_string n) ≡ some (pos n)
unfolding to_string scan
atoi-to_string n h =
    let (c, s, e, lo, hi) = emit_head (suc n) n [] (omega arith) in
    rw e (
      atoi_digit c s lo hi
      ∙ ap to_int (ap (λ t. scan t 0) (sym e) ∙ scan-emit (suc n) n [] (omega arith))
      ∙ to_int_lem n h)

-- `std::string::c_str` as a C text: up to the first NUL.
unfoldable pub c_str : Bytes → Bytes
c_str [] = []
c_str (c ∷ s) = if c == 0 then [] else c ∷ c_str s

scan-c_str : (s : Bytes) (n : ℕ) → scan (c_str s) n ≡ scan s n
unfolding c_str scan
scan-c_str [] n = refl
scan-c_str (c ∷ s) n = ground (arith, scan-c_str s (n * 10 + (c - 48)))

-- `atoi` stops at a NUL anyway.
pub atoi-c_str : (s : Bytes) → atoi (c_str s) ≡ atoi s
unfolding c_str atoi
atoi-c_str [] = refl
atoi-c_str (c ∷ s) = ground (arith, atoi-c_str s, scan-c_str s 0, scan-c_str (c ∷ s) 0)

abbrev tens : ℕ → ℕ
tens zero = 1
tens (suc k) = 10 * tens k

length-emit :
    (k f n : ℕ) (out : Bytes) → n < f → n < 10 * tens k → length (emit f n out) ≤ length out + suc k
unfolding emit
length-emit k zero n out h small = elim h [ ]
length-emit zero (suc f) n out h small = ground arith
length-emit (suc k) (suc f) n out h small =
    ground (arith, length-emit k f (n / 10) ((48 + n % 10) ∷ out))

-- An `int` has at most ten digits.
pub length-to_string : (n : ℕ) → n ≤ int_max → length (to_string n) ≤ 10
unfolding to_string
length-to_string n h = length-emit 9 (suc n) n [] (omega arith) (omega arith)
