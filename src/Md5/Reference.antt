-- ===== src/Md5/Reference.antt =====
-- GRPC/src/Md5.cc: the digest of `GenerateMD5` against RFC 1321 written out from its text.
use docker_compose_seckill_s.Base.{
  AreBytes, AreBytes-get_or, AreBytes-append, AreBytes-take, AreBytes-drop, zeros-AreBytes, ℕ, zero,
  suc, ◌+◌, ◌-◌, ◌*◌, ◌/◌, ◌%◌, ◌<◌, ◌≡◌, refl, ◌∙◌, ap, arith, List, [], ◌∷◌, Bytes, take, drop,
  length, map, ◌++◌, get_or, replicate,
}
use docker_compose_seckill_s.Md5.Word.{get_uint32}
use docker_compose_seckill_s.Md5.Table.{Operation}
use docker_compose_seckill_s.Md5.Process.{Registers, words}
use docker_compose_seckill_s.Md5.Stream.{generate_md5}
use docker_compose_seckill_s.Md5.Rfc.{word, rfc_f, rfc_g, rfc_h, rfc_i}
use docker_compose_seckill_s.Md5.Compress.{rfc_operate_all, rfc_compress}
use docker_compose_seckill_s.Md5.Bits.{bit_limit}
use docker_compose_seckill_s.Md5.Padded.{padded, little_endian, register_bytes}
use docker_compose_seckill_s.Md5.Disjoint.{of_bytes, get_uint32-of_bytes}
use docker_compose_seckill_s.Md5.Rfc1321.{rfc_blocks, rfc_md5, sum_registers, generate_md5-rfc_md5}

-- The table T of section 3.4.
abbrev rfc_t : List ℕ
rfc_t =
    0xd76a_a478 ∷ 0xe8c7_b756 ∷ 0x2420_70db ∷ 0xc1bd_ceee ∷ 0xf57c_0faf ∷ 0x4787_c62a ∷ 0xa830_4613
    ∷ 0xfd46_9501 ∷ 0x6980_98d8 ∷ 0x8b44_f7af ∷ 0xffff_5bb1 ∷ 0x895c_d7be ∷ 0x6b90_1122
    ∷ 0xfd98_7193 ∷ 0xa679_438e ∷ 0x49b4_0821 ∷ 0xf61e_2562 ∷ 0xc040_b340 ∷ 0x265e_5a51
    ∷ 0xe9b6_c7aa ∷ 0xd62f_105d ∷ 0x0244_1453 ∷ 0xd8a1_e681 ∷ 0xe7d3_fbc8 ∷ 0x21e1_cde6
    ∷ 0xc337_07d6 ∷ 0xf4d5_0d87 ∷ 0x455a_14ed ∷ 0xa9e3_e905 ∷ 0xfcef_a3f8 ∷ 0x676f_02d9
    ∷ 0x8d2a_4c8a ∷ 0xfffa_3942 ∷ 0x8771_f681 ∷ 0x6d9d_6122 ∷ 0xfde5_380c ∷ 0xa4be_ea44
    ∷ 0x4bde_cfa9 ∷ 0xf6bb_4b60 ∷ 0xbebf_bc70 ∷ 0x289b_7ec6 ∷ 0xeaa1_27fa ∷ 0xd4ef_3085
    ∷ 0x0488_1d05 ∷ 0xd9d4_d039 ∷ 0xe6db_99e5 ∷ 0x1fa2_7cf8 ∷ 0xc4ac_5665 ∷ 0xf429_2244
    ∷ 0x432a_ff97 ∷ 0xab94_23a7 ∷ 0xfc93_a039 ∷ 0x655b_59c3 ∷ 0x8f0c_cc92 ∷ 0xffef_f47d
    ∷ 0x8584_5dd1 ∷ 0x6fa8_7e4f ∷ 0xfe2c_e6e0 ∷ 0xa301_4314 ∷ 0x4e08_11a1 ∷ 0xf753_7e82
    ∷ 0xbd3a_f235 ∷ 0x2ad7_d2bb ∷ 0xeb86_d391 ∷ []

-- A round: operation `i` takes word `first + stride * i` modulo 16, and the shifts in turn.
rfc_round : ℕ → ℕ → List ℕ → ℕ → List ℕ → List Operation
rfc_round first stride shifts i [] = []
rfc_round first stride shifts i (t ∷ ts) =
    record { k = (first + stride * i) % 16; s = get_or shifts (i % 4) 0; t = t }
    ∷ rfc_round first stride shifts (suc i) ts

abbrev rfc_round1 : List Operation
rfc_round1 = rfc_round 0 1 (7 ∷ 12 ∷ 17 ∷ 22 ∷ []) 0 (take 16 rfc_t)

abbrev rfc_round2 : List Operation
rfc_round2 = rfc_round 1 5 (5 ∷ 9 ∷ 14 ∷ 20 ∷ []) 0 (take 16 (drop 16 rfc_t))

abbrev rfc_round3 : List Operation
rfc_round3 = rfc_round 5 3 (4 ∷ 11 ∷ 16 ∷ 23 ∷ []) 0 (take 16 (drop 32 rfc_t))

abbrev rfc_round4 : List Operation
rfc_round4 = rfc_round 0 7 (6 ∷ 10 ∷ 15 ∷ 21 ∷ []) 0 (drop 48 rfc_t)

-- `n` words of a block from byte `i` on, the lowest byte first.
message_words : ℕ → ℕ → Bytes → List ℕ
message_words zero i block = []
message_words (suc n) i block =
    of_bytes (get_or block i 0) (get_or block (i + 1) 0) (get_or block (i + 2) 0)
      (get_or block (i + 3) 0)
    ∷ message_words n (i + 4) block

-- The registers before the first block, as bytes.
abbrev rfc_initial : Registers
rfc_initial = record {
  a = of_bytes 0x01 0x23 0x45 0x67;
  b = of_bytes 0x89 0xab 0xcd 0xef;
  c = of_bytes 0xfe 0xdc 0xba 0x98;
  d = of_bytes 0x76 0x54 0x32 0x10;
}

abbrev after_rounds : List ℕ → Registers → Registers
after_rounds x r = rfc_operate_all rfc_i x rfc_round4 (
    rfc_operate_all rfc_h x rfc_round3
      (rfc_operate_all rfc_g x rfc_round2 (rfc_operate_all rfc_f x rfc_round1 r)))

-- One block.
digest_block : Registers → Bytes → Registers
digest_block r block = sum_registers r (after_rounds (message_words 16 0 block) r)

digest_blocks : ℕ → Registers → Bytes → Registers
digest_blocks zero r m = r
digest_blocks (suc q) r m = digest_blocks q (digest_block r (take 64 m)) (drop 64 m)

pub md5 : Bytes → Bytes
md5 m = register_bytes (digest_blocks (length (padded m) / 64) rfc_initial (padded m))

-- The words that GET_UINT32 reads are those.
word-get_uint32 :
    (b : Bytes) (i : ℕ)
    → AreBytes b
    → word (get_uint32 b i)
      ≡ of_bytes (get_or b i 0) (get_or b (i + 1) 0) (get_or b (i + 2) 0) (get_or b (i + 3) 0)
unfolding get_uint32
word-get_uint32 b i h =
    let h0 = AreBytes-get_or b i h in
    let h1 = AreBytes-get_or b (i + 1) h in
    let h2 = AreBytes-get_or b (i + 2) h in
    let h3 = AreBytes-get_or b (i + 3) h in
    ap word (get_uint32-of_bytes _ _ _ _ h0 h1 h2 h3 []) ∙ omega (arith, h0, h1, h2, h3)

words-message_words : (b : Bytes) → AreBytes b → map word (words b) ≡ message_words 16 0 b
unfolding words message_words
words-message_words b h = λ i.
    w 0 i
    ∷ w 4 i
    ∷ w 8 i
    ∷ w 12 i
    ∷ w 16 i
    ∷ w 20 i
    ∷ w 24 i
    ∷ w 28 i
    ∷ w 32 i
    ∷ w 36 i
    ∷ w 40 i
    ∷ w 44 i
    ∷ w 48 i
    ∷ w 52 i
    ∷ w 56 i
    ∷ w 60 i
    ∷ []
  where
    w :
        (o : ℕ)
        → word (get_uint32 b o)
          ≡ of_bytes (get_or b o 0) (get_or b (o + 1) 0) (get_or b (o + 2) 0) (get_or b (o + 3) 0)
    w o = word-get_uint32 b o h

rfc_compress-sum :
    (r : Registers) (x : List ℕ) → rfc_compress r x ≡ sum_registers r (after_rounds x r)
unfolding rfc_compress rfc_round
rfc_compress-sum r x = refl

-- The rounds of the code are those of the reference.
rfc_compress-digest_block :
    (r : Registers) (b : Bytes)
    → AreBytes b
    → rfc_compress r (map word (words b)) ≡ digest_block r b
unfolding digest_block
rfc_compress-digest_block r b h =
    ap (rfc_compress r) (words-message_words b h) ∙ rfc_compress-sum r (message_words 16 0 b)

rfc_blocks-digest_blocks :
    (q : ℕ) (r : Registers) (m : Bytes) → AreBytes m → rfc_blocks q r m ≡ digest_blocks q r m
unfolding rfc_blocks digest_blocks
rfc_blocks-digest_blocks zero r m h = refl
rfc_blocks-digest_blocks (suc q) r m h =
    ap (λ t. rfc_blocks q t (drop 64 m))
      (rfc_compress-digest_block r (take 64 m) (AreBytes-take 64 m h))
    ∙ rfc_blocks-digest_blocks q (digest_block r (take 64 m)) (drop 64 m) (AreBytes-drop 64 m h)

-- So are the padded texts.
little_endian-AreBytes : (k n : ℕ) → AreBytes (little_endian k n)
unfolding little_endian
little_endian-AreBytes zero n = tt
little_endian-AreBytes (suc k) n = (omega arith, little_endian-AreBytes k (n / 256))

padded-AreBytes : (m : Bytes) → AreBytes m → AreBytes (padded m)
unfolding padded
padded-AreBytes m h =
    AreBytes-append (m ++ 0x80 ∷ replicate ((119 - length m % 64) % 64) 0) _
      (AreBytes-append m _ h (omega arith, zeros-AreBytes _)) (little_endian-AreBytes 8 _)

-- For every text of bytes with less than 2^29 - 72 of them and every content `junk` of the buffer,
-- `GenerateMD5`, whose `uint32` has 64 digits, writes the digest that RFC 1321 defines with words
-- of 32: the text padded, each block read as sixteen words, the lowest byte first, and compressed
-- in four rounds of F, G, H and I that take the words in the order of i, 1 + 5i, 5 + 3i and 7i
-- modulo 16, with the shifts in turn and the constants of the RFC.
pub generate_md5-md5 :
    (junk m : Bytes)
    → length junk ≡ 64
    → AreBytes m
    → length m + 72 < bit_limit
    → generate_md5 junk m (length m) ≡ md5 m
unfolding md5 rfc_md5
generate_md5-md5 junk m full bytes few =
    generate_md5-rfc_md5 junk m full few
    ∙ ap register_bytes (
        rfc_blocks-digest_blocks (length (padded m) / 64) rfc_initial (padded m)
          (padded-AreBytes m bytes))
