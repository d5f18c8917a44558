-- ===== src/Md5/Hex.antt =====
-- GRPC/src/Md5.cc: `ToString` and `MD5(const char*)`, between a digest and its text.
use Prim.Native.Nat.{bit_or}
use mathlib.Core.Option
use docker_compose_seckill_s.Base.{
  AreBytes, ℕ, suc, ◌+◌, ◌*◌, ◌/◌, ◌%◌, ◌^◌, ◌≤◌, ◌<◌, ◌≡◌, refl, sym, ap, ◌∙◌, Bool, true, false,
  ◌&&◌, [], ◌∷◌, ◌++◌, none, some, Bytes, take, drop, length, length-take, if◌then◌else◌, ltb, ◌==◌,
  arith,
}
use docker_compose_seckill_s.Md5.Disjoint.{bit_or_hex}
use docker_compose_seckill_s.Md5.Object.{
  Md5, hex_digit, hex_text, to_string, hex_value, httoi_rest, httoi_digits, httoi, strncpy_2,
  parse_bytes, from_text,
}

-- A text that does not begin with a hexadecimal digit.
abbrev pub Stops : Bytes → Type 0
Stops [] = Unit {0}
Stops (c ∷ s) = hex_value c ≡ none

hex_value-hex_digit : (n : ℕ) → n < 16 → hex_value (hex_digit n) ≡ some n
unfolding hex_value hex_digit
hex_value-hex_digit n h = ground arith

hex_digit_lower : (n : ℕ) → n < 16 → (hex_digit n == b'X') ≡ false
unfolding hex_digit
hex_digit_lower n h = ground arith

rest_ends : (s : Bytes) (n : ℕ) → Stops s → httoi_rest s n ≡ n
unfolding httoi_rest
rest_ends [] n h = refl
rest_ends (c ∷ s) n h =
    ap (λ o. elim o [ none ↦ n | some v ↦ httoi_rest s (bit_or ((n * 16) % 2 ^ 32) v) ]) h

rest_digit :
    (s : Bytes) (n v : ℕ)
    → v < 16
    → httoi_rest (hex_digit v ∷ s) n ≡ httoi_rest s (bit_or ((n * 16) % 2 ^ 32) v)
unfolding httoi_rest
rest_digit s n v h =
    ap (λ o. elim o [ none ↦ n | some w ↦ httoi_rest s (bit_or ((n * 16) % 2 ^ 32) w) ])
      (hex_value-hex_digit v h)

first_digit : (s : Bytes) (v : ℕ) → v < 16 → httoi_digits (hex_digit v ∷ s) ≡ httoi_rest s v
unfolding httoi_digits
first_digit s v h =
    ap (λ o. elim o [ none ↦ 0 | some w ↦ httoi_rest s w ]) (hex_value-hex_digit v h)

and-false : (b : Bool) → (b && false) ≡ false
and-false true = refl
and-false false = refl

-- No digit that `ToString` writes is an X, so no `0X` is skipped.
no_prefix :
    (s : Bytes) (c v : ℕ)
    → v < 16
    → httoi (c ∷ hex_digit v ∷ s) ≡ httoi_digits (c ∷ hex_digit v ∷ s)
unfolding httoi
no_prefix s c v h =
    ap (λ b. if (c == b'0') && b then httoi_digits s else httoi_digits (c ∷ hex_digit v ∷ s))
      (hex_digit_lower v h)
    ∙ ap (λ b. if b then httoi_digits s else httoi_digits (c ∷ hex_digit v ∷ s))
        (and-false (c == b'0'))

-- Two digits and what stops the reader are the byte that was written.
httoi-pair :
    (junk : Bytes) (x : ℕ)
    → Stops junk
    → x < 256
    → httoi (hex_digit (x / 16) ∷ hex_digit (x % 16) ∷ junk) % 256 ≡ x
httoi-pair junk x stops h =
    ap (λ n. n % 256)
      (no_prefix junk (hex_digit (x / 16)) (x % 16) (omega arith)
        ∙ first_digit (hex_digit (x % 16) ∷ junk) (x / 16) (omega (arith, h))
        ∙ rest_digit junk (x / 16) (x % 16) (omega arith)
        ∙ rest_ends junk _ stops
        ∙ bit_or_hex (x / 16) (x % 16) (omega (arith, h)) (omega arith))
    ∙ omega (arith, h)

parse_pair :
    (n : ℕ) (junk : Bytes) (c d : ℕ) (s : Bytes)
    → parse_bytes (suc (suc n)) junk (c ∷ d ∷ s)
      ≡ Option.map (◌∷◌ (httoi (c ∷ d ∷ junk) % 256)) (parse_bytes (suc n) junk s)
unfolding parse_bytes strncpy_2
parse_pair n junk c d s =
    let byte = httoi (c ∷ d ∷ junk) % 256 in
    let found = Option.map (◌∷◌ byte) (parse_bytes (suc n) junk s) in
    ap (λ b. if b then some (byte ∷ []) else if ltb (length (c ∷ d ∷ s)) 2 then none else found)
      {x = suc n == 0} {y = false} (ground arith)
    ∙ ap (λ b. if b then none else found) {x = ltb (length (c ∷ d ∷ s)) 2} {y = false}
        (ground arith)

parse_bytes-hex_text :
    (junk rest : Bytes) (x : ℕ) (xs : Bytes)
    → Stops junk
    → AreBytes (x ∷ xs)
    → parse_bytes (suc (length xs)) junk (hex_text (x ∷ xs) ++ rest) ≡ some (x ∷ xs)
unfolding parse_bytes hex_text strncpy_2
parse_bytes-hex_text junk rest x [] stops (h, _) =
    ap (λ b. some (b ∷ [])) (httoi-pair junk x stops h)
parse_bytes-hex_text junk rest x (y ∷ ys) stops (h, hs) =
    parse_pair (length ys) junk (hex_digit (x / 16)) (hex_digit (x % 16))
      (hex_text (y ∷ ys) ++ rest)
    ∙ ap (Option.map (◌∷◌ (httoi (hex_digit (x / 16) ∷ hex_digit (x % 16) ∷ junk) % 256)))
        (parse_bytes-hex_text junk rest y ys stops hs)
    ∙ ap (λ b. some (b ∷ y ∷ ys)) (httoi-pair junk x stops h)

from_text-front :
    (junk self bytes rest : Bytes)
    → length bytes ≡ 16
    → Stops junk
    → AreBytes bytes
    → from_text junk self (hex_text bytes ++ rest) ≡ some (bytes ++ drop 16 self)
unfolding from_text hex_text
from_text-front junk self [] rest n stops h = absurd (omega (arith, n))
from_text-front junk self (x ∷ xs) rest n stops h =
    ap (Option.map (λ bytes. bytes ++ drop 16 self)) (
      ap (λ k. parse_bytes k junk (hex_text (x ∷ xs) ++ rest)) {y = suc (length xs)} (sym n)
      ∙ parse_bytes-hex_text junk rest x xs stops h)

-- A digest that is printed and read again is the same sixteen bytes, whatever text follows it,
-- if what stands in the reader's buffer behind the two digits it copied is no digit.
pub from_text-to_string :
    (junk self rest : Bytes) (digest : Md5)
    → 16 ≤ length digest
    → AreBytes (take 16 digest)
    → Stops junk
    → from_text junk self (to_string digest ++ rest) ≡ some (take 16 digest ++ drop 16 self)
unfolding to_string
from_text-to_string junk self rest digest long bytes stops =
    from_text-front junk self (take 16 digest) rest (length-take 16 digest ∙ omega (arith, long))
      stops bytes

-- If a digit stands behind the two that were copied, and then what is no digit, the reader takes
-- it as a third one, and the byte it stores is another: its first digit is the second one, and
-- its second digit is the stranger.
pub httoi-stranger :
    (junk : Bytes) (x v : ℕ)
    → Stops junk
    → x < 256
    → v < 16
    → httoi (strncpy_2 (hex_text (x ∷ [])) ++ hex_digit v ∷ junk) % 256 ≡ x % 16 * 16 + v
unfolding strncpy_2 hex_text
httoi-stranger junk x v stops h k =
    ap (λ n. n % 256)
      (no_prefix (hex_digit v ∷ junk) (hex_digit (x / 16)) (x % 16) (omega arith)
        ∙ first_digit (hex_digit (x % 16) ∷ hex_digit v ∷ junk) (x / 16) (omega (arith, h))
        ∙ rest_digit (hex_digit v ∷ junk) (x / 16) (x % 16) (omega arith)
        ∙ ap (httoi_rest (hex_digit v ∷ junk))
            (bit_or_hex (x / 16) (x % 16) (omega (arith, h)) (omega arith))
        ∙ rest_digit junk (x / 16 * 16 + x % 16) v k
        ∙ rest_ends junk _ stops
        ∙ bit_or_hex (x / 16 * 16 + x % 16) v (omega (arith, h)) k)
    ∙ omega (arith, h, k)
