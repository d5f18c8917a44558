-- ===== src/Md5/Rfc1321.antt =====
-- GRPC/src/Md5.cc: the digest of `GenerateMD5` is that of RFC 1321.
use docker_compose_seckill_s.Base.{
  ℕ, zero, suc, ◌+◌, ◌/◌, ◌%◌, ◌<◌, ◌≡◌, refl, ◌∙◌, ap, arith, List, [], ◌∷◌, Bytes, take, drop,
  length, map, ◌++◌,
}
use docker_compose_seckill_s.Md5.Word.{f1, f2, f3, f4}
use docker_compose_seckill_s.Md5.Table.{round1, round2, round3, round4}
use docker_compose_seckill_s.Md5.Process.{
  Registers, initial_state, words, operate_all, rounds, add_registers,
}
use docker_compose_seckill_s.Md5.Stream.{generate_md5}
use docker_compose_seckill_s.Md5.Blocks.{compress, hash_blocks}
use docker_compose_seckill_s.Md5.Rfc.{
  word, rfc_f, rfc_g, rfc_h, rfc_i, word-f1, word-f2, word-f3, word-f4,
}
use docker_compose_seckill_s.Md5.Compress.{
  narrow, rfc_operate_all, rfc_compress, word-add64, InRange, operate_all-InRange,
  narrow-operate_all,
}
use docker_compose_seckill_s.Md5.Bits.{bit_limit}
use docker_compose_seckill_s.Md5.Padded.{padded, little_endian, register_bytes, generate_md5-padded}

-- The four rounds.
narrow-rounds :
    (x : List ℕ) (r : Registers)
    → InRange r
    → narrow (rounds x r)
      ≡ rfc_operate_all rfc_i (map word x) round4 (
          rfc_operate_all rfc_h (map word x) round3 (
            rfc_operate_all rfc_g
              (map word x)
              round2
              (rfc_operate_all rfc_f (map word x) round1 (narrow r))))
narrow-rounds x r v =
    narrow-operate_all f4 rfc_i word-f4 x round4 r3 v3
    ∙ ap (rfc_operate_all rfc_i (map word x) round4) (
        narrow-operate_all f3 rfc_h (λ a b c h. word-f3 a b c) x round3 r2 v2
        ∙ ap (rfc_operate_all rfc_h (map word x) round3) (
            narrow-operate_all f2 rfc_g (λ a b c h. word-f2 a b c) x round2 r1 v1
            ∙ ap (rfc_operate_all rfc_g (map word x) round2)
                (narrow-operate_all f1 rfc_f (λ a b c h. word-f1 a b c) x round1 r v)))
  where
    r1 : Registers
    r1 = operate_all f1 x round1 r

    v1 : InRange r1
    v1 = operate_all-InRange f1 rfc_f (λ a b c h. word-f1 a b c) x round1 r v

    r2 : Registers
    r2 = operate_all f2 x round2 r1

    v2 : InRange r2
    v2 = operate_all-InRange f2 rfc_g (λ a b c h. word-f2 a b c) x round2 r1 v1

    r3 : Registers
    r3 = operate_all f3 x round3 r2

    v3 : InRange r3
    v3 = operate_all-InRange f3 rfc_h (λ a b c h. word-f3 a b c) x round3 r2 v2

abbrev pub sum_registers : Registers → Registers → Registers
sum_registers r q = record {
  a = word (r.a + q.a);
  b = word (r.b + q.b);
  c = word (r.c + q.c);
  d = word (r.d + q.d);
}

narrow-add_registers :
    (r q : Registers) → narrow (add_registers r q) ≡ sum_registers (narrow r) (narrow q)
narrow-add_registers r q = λ i. record {
  a = word-add64 r.a q.a i;
  b = word-add64 r.b q.b i;
  c = word-add64 r.c q.c i;
  d = word-add64 r.d q.d i;
}

-- One block.
pub narrow-compress :
    (r : Registers) (block : Bytes)
    → InRange r
    → narrow (compress r block) ≡ rfc_compress (narrow r) (map word (words block))
unfolding compress rfc_compress
narrow-compress r block v =
    narrow-add_registers r (rounds (words block) r)
    ∙ ap (sum_registers (narrow r)) (narrow-rounds (words block) r v)

compress-InRange : (r : Registers) (block : Bytes) → InRange (compress r block)
unfolding compress
compress-InRange r block = record {
  b_fits = omega arith;
  c_fits = omega arith;
  d_fits = omega arith;
}

-- The reference: block after block, on words.
unfoldable pub rfc_blocks : ℕ → Registers → Bytes → Registers
rfc_blocks zero r m = r
rfc_blocks (suc q) r m = rfc_blocks q (rfc_compress r (map word (words (take 64 m)))) (drop 64 m)

narrow-hash_blocks :
    (q : ℕ) (r : Registers) (m : Bytes)
    → InRange r
    → narrow (hash_blocks q r m) ≡ rfc_blocks q (narrow r) m
unfolding hash_blocks rfc_blocks
narrow-hash_blocks zero r m v = refl
narrow-hash_blocks (suc q) r m v =
    narrow-hash_blocks q (compress r (take 64 m)) (drop 64 m) (compress-InRange r (take 64 m))
    ∙ ap (λ t. rfc_blocks q t (drop 64 m)) (narrow-compress r (take 64 m) v)

unfoldable pub rfc_md5 : Bytes → Bytes
rfc_md5 m = register_bytes (rfc_blocks (length (padded m) / 64) initial_state (padded m))

little_endian-word : (n : ℕ) → little_endian 4 n ≡ little_endian 4 (word n)
unfolding little_endian
little_endian-word n =
    let e0 : n % 256 ≡ word n % 256 = omega arith in
    let e1 : n / 256 % 256 ≡ word n / 256 % 256 = omega arith in
    let e2 : n / 256 / 256 % 256 ≡ word n / 256 / 256 % 256 = omega arith in
    let e3 : n / 256 / 256 / 256 % 256 ≡ word n / 256 / 256 / 256 % 256 = omega arith in
    λ i. e0 i ∷ e1 i ∷ e2 i ∷ e3 i ∷ []

register_bytes-narrow : (r : Registers) → register_bytes r ≡ register_bytes (narrow r)
unfolding register_bytes
register_bytes-narrow r = λ i.
    little_endian-word r.a i
    ++ little_endian-word r.b i
    ++ little_endian-word r.c i
    ++ little_endian-word r.d i

-- For every text of less than 2^29 - 72 bytes and every content `junk` of the buffer,
-- `GenerateMD5`, whose `uint32` has 64 digits, writes the digest that RFC 1321 defines with
-- words of 32: the text padded, one block after the other compressed with F, G, H and I written
-- out, the rotations and sums on words. Blocks are read as the words that `GET_UINT32` gives, and
-- the constants are those of the code.
pub generate_md5-rfc_md5 :
    (junk m : Bytes)
    → length junk ≡ 64
    → length m + 72 < bit_limit
    → generate_md5 junk m (length m) ≡ rfc_md5 m
unfolding rfc_md5
generate_md5-rfc_md5 junk m full few =
    generate_md5-padded junk m full few
    ∙ register_bytes-narrow (hash_blocks (length (padded m) / 64) initial_state (padded m))
    ∙ ap register_bytes (
        narrow-hash_blocks (length (padded m) / 64) initial_state (padded m)
          (record { b_fits = omega arith; c_fits = omega arith; d_fits = omega arith }))
