-- ===== src/Md5/Bits.antt =====
-- GRPC/src/Md5.cc: how `md5_update` counts bits.
use Prim.Native.Nat.{bit_and}
use docker_compose_seckill_s.Base.{
  ℕ, ◌+◌, ◌*◌, ◌/◌, ◌%◌, ◌^◌, ◌≤◌, ◌<◌, ◌≡◌, ◌∙◌, Bytes, length, if◌then◌else◌, ltb, false, arith,
}
use docker_compose_seckill_s.Md5.Mask.{bit_and_63, bit_and_uint32}
use docker_compose_seckill_s.Md5.Word.{add64, shl64, shr}
use docker_compose_seckill_s.Md5.Process.{Md5Context}
use docker_compose_seckill_s.Md5.Stream.{absorb, bytes_buffered, count_bits, fill_buffer, memcpy_at}
use docker_compose_seckill_s.Md5.Blocks.{md5_process-eq}
use docker_compose_seckill_s.Md5.Update.{absorb-if}

abbrev pub bit_limit : ℕ
bit_limit = 2 ^ 29

pub absorb-totals :
    (left : ℕ) (ctx : Md5Context) (x : Bytes)
    → ((absorb ctx left x (length x)).total0 ≡ ctx.total0)
      × ((absorb ctx left x (length x)).total1 ≡ ctx.total1)
absorb-totals left ctx x =
    let e = absorb-if (length x / 64) (length x % 64) left ctx x (omega arith) (omega arith) in
    ground (arith, e)

pub fill_buffer-totals :
    (left fill : ℕ) (ctx : Md5Context) (x : Bytes)
    → ((fill_buffer ctx left x fill).total0 ≡ ctx.total0)
      × ((fill_buffer ctx left x fill).total1 ≡ ctx.total1)
unfolding fill_buffer
fill_buffer-totals left fill ctx x =
    let block = memcpy_at ctx.buffer left x fill in
    ground (arith, md5_process-eq (record ctx { buffer = block }) block)

counted :
    (ctx : Md5Context) (n k : ℕ)
    → ctx.total0 ≡ 8 * n
    → n + k < bit_limit
    → bit_and (add64 ctx.total0 (shl64 k 3)) 0xffff_ffff ≡ 8 * (n + k)
counted ctx n k e few =
    bit_and_uint32 (add64 ctx.total0 (shl64 k 3)) (omega (arith, e, few)) ∙ omega (arith, e, few)

le→ltb : (a b : ℕ) → b ≤ a → ltb a b ≡ false
le→ltb a b h = ground arith

no_carry_lem :
    (ctx : Md5Context) (n k t : ℕ)
    → ctx.total1 ≡ 0
    → n + k < bit_limit
    → t ≡ 8 * (n + k)
    → add64 (add64 ctx.total1 (shr k 29)) (if ltb t (shl64 k 3) then 1 else 0) ≡ 0
no_carry_lem ctx n k t e few h =
    rw (le→ltb t (shl64 k 3) (omega (arith, few, h))) (omega (arith, e, few))

pub count_bits-eq :
    (ctx : Md5Context) (n k : ℕ)
    → ctx.total0 ≡ 8 * n
    → ctx.total1 ≡ 0
    → n + k < bit_limit
    → count_bits ctx k ≡ record ctx { total0 = 8 * (n + k); total1 = 0 }
unfolding count_bits
count_bits-eq ctx n k e0 e1 few =
    let total = counted ctx n k e0 few in
    let carry = no_carry_lem ctx n k _ e1 few total in
    λ i. record ctx { total0 = total i; total1 = carry i }

pub bytes_buffered-eq :
    (ctx : Md5Context) (n : ℕ) → ctx.total0 ≡ 8 * n → bytes_buffered ctx ≡ n % 64
bytes_buffered-eq ctx n e = bit_and_63 (shr ctx.total0 3) ∙ omega (arith, e)
