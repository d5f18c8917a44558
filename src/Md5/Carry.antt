-- ===== src/Md5/Carry.antt =====
-- GRPC/src/Md5.cc: the count of bits for texts of 2^29 bytes and more, which 32 digits do not hold.
use Prim.Native.Nat.{bit_and}
use docker_compose_seckill_s.Base.{
  ℕ, ◌+◌, ◌*◌, ◌/◌, ◌%◌, ◌^◌, ◌≤◌, ◌<◌, ◌≡◌, ap, ◌∙◌, Bytes, length, false, ◌==◌, if◌then◌else◌,
  lt→ltb, arith,
}
use docker_compose_seckill_s.Md5.Mask.{bit_and-ones}
use docker_compose_seckill_s.Md5.Low.{low_mod}
use docker_compose_seckill_s.Md5.Word.{add64, shl64, shr}
use docker_compose_seckill_s.Md5.Process.{md5_starts}
use docker_compose_seckill_s.Md5.Stream.{count_bits, md5_update}
use docker_compose_seckill_s.Md5.Bits.{absorb-totals}

uint32_mod : (a : ℕ) → bit_and a 0xffff_ffff ≡ a % 2 ^ 32
uint32_mod a = bit_and-ones 32 a ∙ low_mod a

count_bits_twice :
    (junk : Bytes) (n : ℕ)
    → 2 ^ 29 ≤ n
    → n < 2 ^ 31
    → ((count_bits (md5_starts junk) n).total0 ≡ n * 8 % 2 ^ 32)
      × ((count_bits (md5_starts junk) n).total1 ≡ n * 8 / 2 ^ 32 + 1)
unfolding count_bits md5_starts
count_bits_twice junk n large small = (
  counted,
  ap (λ t. add64 (add64 0 (shr n 29)) (if t then 1 else 0))
        (lt→ltb _ _ (omega (arith, counted, large, small)))
      ∙ omega (arith, large, small),
)
  where
    counted : bit_and (add64 0 (shl64 n 3)) 0xffff_ffff ≡ n * 8 % 2 ^ 32
    counted = uint32_mod (add64 0 (shl64 n 3)) ∙ omega (arith, small)

not_zero : (n : ℕ) → 2 ^ 29 ≤ n → (n == 0) ≡ false
not_zero n large = ground arith

-- For every text whose length an `int` holds and is at least 2^29: after `md5_update` on a fresh
-- context the number of bits modulo 2^32 is right in `total[0]`, and the carry is counted twice in
-- `total[1]`: once as the upper digits of the length, and once because `total[0]`, cut to 32
-- digits, is less than the bits that were added.
pub md5_update_twice :
    (junk x : Bytes)
    → 2 ^ 29 ≤ length x
    → length x < 2 ^ 31
    → let ctx = md5_update (md5_starts junk) x (length x) in
      (ctx.total0 ≡ length x * 8 % 2 ^ 32) × (ctx.total1 ≡ length x * 8 / 2 ^ 32 + 1)
unfolding md5_update md5_starts
md5_update_twice junk x large small =
    let (low, high) = count_bits_twice junk (length x) large small in
    let (e0, e1) = absorb-totals 0 (count_bits (md5_starts junk) (length x)) x in
    rw (not_zero (length x) large) (e0 ∙ low, e1 ∙ high)
