-- ===== src/Md5/Update.antt =====
-- GRPC/src/Md5.cc: `md5_update` on a text that comes in pieces, against the blocks of the text
-- as a whole.
use docker_compose_seckill_s.Base.{
  ℕ, zero, suc, ◌+◌, ◌-◌, ◌*◌, ◌≤◌, ◌<◌, ◌≡◌, refl, sym, ap, ◌∙◌, subst, [], ◌∷◌, ◌++◌, Bytes, take,
  drop, length, length-append, length-take, length-drop, take_all, drop_all, take-front,
  if◌then◌else◌, ◌==◌, false, arith,
}
use docker_compose_seckill_s.Md5.Process.{Md5Context, initial_state}
use docker_compose_seckill_s.Md5.Stream.{memcpy_at, absorb, fill_buffer}
use docker_compose_seckill_s.Md5.Blocks.{
  compress, hash_blocks, after_blocks, md5_process-eq, hash_blocks-append, after_blocks-append,
  length-after_blocks, hash_blocks_add, after_blocks_add, whole_blocks-eq,
}

-- The context after the text `m`, as far as its state and buffer go: `q` blocks are processed,
-- and the `r` bytes behind them are at the front of the buffer.
pub record Absorbed (q r : ℕ) (ctx : Md5Context) (m : Bytes) : Type 0 where
  pub sized : length m ≡ 64 * q + r
  pub small : r < 64
  pub hashed : ctx.state ≡ hash_blocks q initial_state m
  pub kept : take r ctx.buffer ≡ after_blocks q m
  pub full : length ctx.buffer ≡ 64

length-memcpy_at :
    (buffer : Bytes) (at n : ℕ) (input : Bytes)
    → length buffer ≡ 64
    → n ≤ length input
    → at + n ≤ 64
    → length (memcpy_at buffer at input n) ≡ 64
unfolding memcpy_at
length-memcpy_at buffer at n input full enough fits = omega (
  arith,
  length-append (take at buffer ++ take n input) (drop (at + n) buffer),
  length-append (take at buffer) (take n input),
  length-take at buffer,
  length-take n input,
  length-drop (at + n) buffer,
)

-- The front of the buffer, after a copy behind what was there.
take-memcpy_at :
    (buffer : Bytes) (at n : ℕ) (input : Bytes)
    → length buffer ≡ 64
    → n ≤ length input
    → at + n ≤ 64
    → take (at + n) (memcpy_at buffer at input n) ≡ take at buffer ++ take n input
unfolding memcpy_at
take-memcpy_at buffer at n input full enough fits =
    take-front (at + n) (take at buffer ++ take n input) (drop (at + n) buffer) (
      omega (
        arith,
        length-append (take at buffer) (take n input),
        length-take at buffer,
        length-take n input,
      ))

pub absorb-if :
    (q r left : ℕ) (ctx : Md5Context) (x : Bytes)
    → length x ≡ 64 * q + r
    → r < 64
    → let hashed = record ctx { state = hash_blocks q ctx.state x } in
      absorb ctx left x (length x) ≡ (
        if r == 0
        then hashed
        else record hashed { buffer = memcpy_at ctx.buffer left (after_blocks q x) r })
unfolding absorb
absorb-if q r left ctx x e small =
    ap
      (λ (t : Md5Context × Bytes × ℕ).
        if t.2 == 0 then t.0 else record (t.0) { buffer = memcpy_at t.0.buffer left t.1 t.2 })
      (whole_blocks-eq q (length x) r ctx x (length x) e small (omega arith))

==_positive : (r : ℕ) → 0 < r → (r == 0) ≡ false
==_positive r h = ground arith

absorb_rest :
    (q r left : ℕ) (ctx : Md5Context) (x : Bytes)
    → length x ≡ 64 * q + r
    → r < 64
    → 0 < r
    → absorb ctx left x (length x) ≡ record ctx {
      state = hash_blocks q ctx.state x;
      buffer = memcpy_at ctx.buffer left (after_blocks q x) r;
    }
absorb_rest q r left ctx x e small positive =
    absorb-if q r left ctx x e small ∙ rw (==_positive r positive) refl

length_zero : (x : Bytes) → length x ≡ 0 → [] ≡ x
length_zero [] h = refl
length_zero (c ∷ x) h = absurd (omega arith)

-- A text that ends with a block, and one behind it.
hash_blocks_behind :
    (q q2 : ℕ) (ctx : Md5Context) (m x : Bytes)
    → Absorbed q 0 ctx m
    → (hash_blocks q2 ctx.state x ≡ hash_blocks (q + q2) initial_state (m ++ x))
      × (after_blocks q2 x ≡ after_blocks (q + q2) (m ++ x))
hash_blocks_behind q q2 ctx m x v = (
  sym (
      hash_blocks_add q q2 initial_state (m ++ x)
      ∙ ap (λ t. hash_blocks q2 t (after_blocks q (m ++ x)))
          (hash_blocks-append q initial_state m x whole ∙ sym v.hashed)
      ∙ ap (hash_blocks q2 ctx.state) rest),
  sym (after_blocks_add q q2 (m ++ x) ∙ ap (after_blocks q2) rest),
)
  where
    whole : 64 * q ≤ length m
    whole = omega (arith, v.sized)

    rest : after_blocks q (m ++ x) ≡ x
    rest = after_blocks-append q m x whole ∙ ap (λ t. t ++ x) (sym v.kept)

-- On an empty buffer.
pub absorb_block_end :
    (q : ℕ) (ctx : Md5Context) (m x : Bytes) (q2 r2 : ℕ)
    → Absorbed q 0 ctx m
    → length x ≡ 64 * q2 + r2
    → r2 < 64
    → Absorbed (q + q2) r2 (absorb ctx 0 x (length x)) (m ++ x)
absorb_block_end q ctx m x q2 zero v e small =
    let (hashes, rest) = hash_blocks_behind q q2 ctx m x v in
    subst (λ c. Absorbed (q + q2) 0 c (m ++ x)) (sym (absorb-if q2 0 0 ctx x e small))
      (record {
        sized = omega (arith, v.sized, e, length-append m x);
        small = small;
        hashed = hashes;
        kept = length_zero (after_blocks q2 x) (omega (arith, length-after_blocks q2 x, e)) ∙ rest;
        full = v.full;
      })
absorb_block_end q ctx m x q2 (suc r2) v e small =
    let (hashes, rest) = hash_blocks_behind q q2 ctx m x v in
    let size = length-after_blocks q2 x in
    let fits : suc r2 ≤ 64 = omega (arith, small) in
    let there : suc r2 ≤ length (after_blocks q2 x) = omega (arith, size, e) in
    subst (λ c. Absorbed (q + q2) (suc r2) c (m ++ x))
      (sym (absorb_rest q2 (suc r2) 0 ctx x e small (omega arith)))
      (record {
        sized = omega (arith, v.sized, e, length-append m x);
        small = small;
        hashed = hashes;
        kept =
            ap (λ k. take k (memcpy_at ctx.buffer 0 (after_blocks q2 x) (suc r2))) {x = suc r2}
              {y = 0 + suc r2} (omega arith)
            ∙ take-memcpy_at ctx.buffer 0 (suc r2) (after_blocks q2 x) v.full there
                (omega (arith, fits))
            ∙ take_all (suc r2) (after_blocks q2 x) (omega (arith, size, e))
            ∙ rest;
        full =
            length-memcpy_at ctx.buffer 0 (suc r2) (after_blocks q2 x) v.full there
              (omega (arith, fits));
      })

-- With too little input to fill the buffer.
pub absorb_little :
    (q r : ℕ) (ctx : Md5Context) (m x : Bytes)
    → Absorbed q r ctx m
    → r + length x < 64
    → 0 < length x
    → Absorbed q (r + length x) (absorb ctx r x (length x)) (m ++ x)
unfolding hash_blocks after_blocks
absorb_little q r ctx m x v few positive =
    subst (λ c. Absorbed q (r + length x) c (m ++ x))
      (sym (absorb_rest 0 (length x) r ctx x (omega arith) (omega (arith, few)) positive))
      (record {
        sized = omega (arith, v.sized, length-append m x);
        small = few;
        hashed = v.hashed ∙ sym (hash_blocks-append q initial_state m x (omega (arith, v.sized)));
        kept =
            take-memcpy_at ctx.buffer r (length x) x v.full (omega arith) (omega (arith, few))
            ∙ ap (λ t. take r ctx.buffer ++ t) (take_all (length x) x (omega arith))
            ∙ ap (λ t. t ++ x) v.kept
            ∙ sym (after_blocks-append q m x (omega (arith, v.sized)));
        full = length-memcpy_at ctx.buffer r (length x) x v.full (omega arith) (omega (arith, few));
      })

pub fill_buffer-Absorbed :
    (q r : ℕ) (ctx : Md5Context) (m x : Bytes)
    → Absorbed q r ctx m
    → length x ≡ 64 - r
    → Absorbed (q + 1) 0 (fill_buffer ctx r x (64 - r)) (m ++ x)
unfolding fill_buffer hash_blocks after_blocks
fill_buffer-Absorbed q r ctx m x v e =
    subst (λ c. Absorbed (q + 1) 0 c (m ++ x))
      (sym (md5_process-eq (record ctx { buffer = block }) block))
      (record {
        sized = omega (arith, v.sized, e, v.small, length-append m x);
        small = omega arith;
        hashed =
            ap (compress ctx.state) (filled ∙ sym (take_all 64 rest (omega (arith, size))))
            ∙ ap (λ t. compress t (take 64 rest))
                (v.hashed ∙ sym (hash_blocks-append q initial_state m x whole))
            ∙ sym (hash_blocks_add q 1 initial_state (m ++ x));
        kept = sym (drop_all 64 rest (omega (arith, size))) ∙ sym (after_blocks_add q 1 (m ++ x));
        full = length_block;
      })
  where
    block : Bytes
    block = memcpy_at ctx.buffer r x (64 - r)

    rest : Bytes
    rest = after_blocks q (m ++ x)

    whole : 64 * q ≤ length m
    whole = omega (arith, v.sized)

    size : length rest ≡ 64
    size = omega (arith, length-after_blocks q (m ++ x), length-append m x, v.sized, v.small, e)

    length_block : length block ≡ 64
    length_block =
        length-memcpy_at ctx.buffer r (64 - r) x v.full (omega (arith, e)) (omega (arith, v.small))

    filled : block ≡ rest
    filled =
        sym (take_all (r + (64 - r)) block (omega (arith, length_block, v.small)))
        ∙ take-memcpy_at ctx.buffer r (64 - r) x v.full (omega (arith, e)) (omega (arith, v.small))
        ∙ ap (λ t. take r ctx.buffer ++ t) (take_all (64 - r) x (omega (arith, e)))
        ∙ ap (λ t. t ++ x) v.kept
        ∙ sym (after_blocks-append q m x whole)
