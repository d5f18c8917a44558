-- ===== src/Md5/Blocks.antt =====
-- GRPC/src/Md5.cc: `md5_process` over the 64-byte blocks of a text that is there as a whole.
use docker_compose_seckill_s.Base.{
  ℕ, zero, suc, ◌+◌, ◌-◌, ◌*◌, ◌≤◌, ◌<◌, ◌≡◌, refl, ap, ◌∙◌, ◌++◌, Bytes, take, drop, length,
  length-drop, take-append, drop-append, arith,
}
use docker_compose_seckill_s.Md5.Process.{
  Registers, Md5Context, rounds, words, add_registers, md5_process,
}
use docker_compose_seckill_s.Md5.Stream.{whole_blocks}

-- What one block does to the registers.
unfoldable pub compress : Registers → Bytes → Registers
compress r block = add_registers r (rounds (words block) r)

-- The registers after the first `q` blocks of a text, and the text behind them.
unfoldable pub hash_blocks : ℕ → Registers → Bytes → Registers
hash_blocks zero r m = r
hash_blocks (suc q) r m = hash_blocks q (compress r (take 64 m)) (drop 64 m)

unfoldable pub after_blocks : ℕ → Bytes → Bytes
after_blocks zero m = m
after_blocks (suc q) m = after_blocks q (drop 64 m)

pub md5_process-eq :
    (ctx : Md5Context) (block : Bytes)
    → md5_process ctx block ≡ record ctx { state = compress ctx.state block }
unfolding md5_process compress
md5_process-eq ctx block = refl

drop_64 :
    (q : ℕ) (m : Bytes) → 64 * suc q ≤ length m → (64 ≤ length m) × (64 * q ≤ length (drop 64 m))
drop_64 q m h = (omega arith, omega (arith, length-drop 64 m))

pub hash_blocks-append :
    (q : ℕ) (r : Registers) (m x : Bytes)
    → 64 * q ≤ length m
    → hash_blocks q r (m ++ x) ≡ hash_blocks q r m
unfolding hash_blocks
hash_blocks-append zero r m x h = refl
hash_blocks-append (suc q) r m x h =
    let (one, more) = drop_64 q m h in
    rw (take-append 64 m x one, drop-append 64 m x one)
      (hash_blocks-append q (compress r (take 64 m)) (drop 64 m) x more)

pub after_blocks-append :
    (q : ℕ) (m x : Bytes) → 64 * q ≤ length m → after_blocks q (m ++ x) ≡ after_blocks q m ++ x
unfolding after_blocks
after_blocks-append zero m x h = refl
after_blocks-append (suc q) m x h =
    let (one, more) = drop_64 q m h in
    rw (drop-append 64 m x one) (after_blocks-append q (drop 64 m) x more)

pub length-after_blocks : (q : ℕ) (m : Bytes) → length (after_blocks q m) ≡ length m - 64 * q
unfolding after_blocks
length-after_blocks zero m = omega arith
length-after_blocks (suc q) m = omega (arith, length-after_blocks q (drop 64 m), length-drop 64 m)

pub hash_blocks_add :
    (a b : ℕ) (r : Registers) (m : Bytes)
    → hash_blocks (a + b) r m ≡ hash_blocks b (hash_blocks a r m) (after_blocks a m)
unfolding hash_blocks after_blocks
hash_blocks_add zero b r m = ap (λ k. hash_blocks k r m) {x = zero + b} {y = b} (omega arith)
hash_blocks_add (suc a) b r m =
    ap (λ k. hash_blocks k r m) {x = suc a + b} {y = suc (a + b)} (omega arith)
    ∙ hash_blocks_add a b (compress r (take 64 m)) (drop 64 m)

pub after_blocks_add :
    (a b : ℕ) (m : Bytes) → after_blocks (a + b) m ≡ after_blocks b (after_blocks a m)
unfolding after_blocks
after_blocks_add zero b m = ap (λ k. after_blocks k m) {x = zero + b} {y = b} (omega arith)
after_blocks_add (suc a) b m =
    ap (λ k. after_blocks k m) {x = suc a + b} {y = suc (a + b)} (omega arith)
    ∙ after_blocks_add a b (drop 64 m)

-- The loop takes all whole blocks, if it is given a round for each.
pub whole_blocks-eq :
    (q fuel r : ℕ) (ctx : Md5Context) (input : Bytes) (n : ℕ)
    → n ≡ 64 * q + r
    → r < 64
    → q ≤ fuel
    → whole_blocks fuel ctx input n
      ≡ (record ctx { state = hash_blocks q ctx.state input }, after_blocks q input, r)
unfolding whole_blocks hash_blocks after_blocks
whole_blocks-eq zero zero r ctx input n e small enough =
    ap (λ k. (ctx, input, k)) {x = n} {y = r} (omega arith)
whole_blocks-eq zero (suc fuel) r ctx input n e small enough = ground (arith)
whole_blocks-eq (suc q) zero r ctx input n e small enough = absurd (omega arith)
whole_blocks-eq (suc q) (suc fuel) r ctx input n e small enough = ground (
  arith,
  whole_blocks-eq q fuel r (md5_process ctx (take 64 input)) (drop 64 input) (n - 64) (omega arith)
      small (omega arith),
  md5_process-eq ctx (take 64 input),
)
