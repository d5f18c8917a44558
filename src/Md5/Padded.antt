-- ===== src/Md5/Padded.antt =====
-- GRPC/src/Md5.cc: `GenerateMD5` against the padding of RFC 1321, section 3.
use docker_compose_seckill_s.Base.{
  ℕ, zero, suc, ◌+◌, ◌-◌, ◌*◌, ◌/◌, ◌%◌, ◌^◌, ◌≤◌, ◌<◌, ◌≡◌, refl, sym, ap, ◌∙◌, subst, [], ◌∷◌,
  ◌++◌, Bytes, take, replicate, length, length-append, length-replicate, arith,
}
use docker_compose_seckill_s.Md5.Mask.{bit_and_255}
use docker_compose_seckill_s.Md5.Word.{put_uint32, shr}
use docker_compose_seckill_s.Md5.Process.{Registers, Md5Context, initial_state, md5_starts}
use docker_compose_seckill_s.Md5.Stream.{
  md5_update, md5_padding, padding_length, state_bytes, md5_finish, generate_md5,
}
use docker_compose_seckill_s.Md5.Blocks.{hash_blocks, after_blocks}
use docker_compose_seckill_s.Md5.Bits.{bit_limit, bytes_buffered-eq}
use docker_compose_seckill_s.Md5.Digest.{Represents, md5_update-Represents}

-- The reference: a number as `k` bytes, the lowest first; the text with a byte 0x80, zeros up to
-- 8 bytes short of a whole block, and the number of its bits.
unfoldable pub little_endian : ℕ → ℕ → Bytes
little_endian zero n = []
little_endian (suc k) n = n % 256 ∷ little_endian k (n / 256)

unfoldable pub padded : Bytes → Bytes
padded m = m ++ 0x80 ∷ replicate ((119 - length m % 64) % 64) 0 ++ little_endian 8 (8 * length m)

unfoldable pub register_bytes : Registers → Bytes
register_bytes r =
    little_endian 4 r.a ++ little_endian 4 r.b ++ little_endian 4 r.c ++ little_endian 4 r.d

put_uint32-eq : (n : ℕ) → put_uint32 n ≡ little_endian 4 n
unfolding put_uint32 little_endian
put_uint32-eq n =
    let e0 = bit_and_255 n in
    let e1 : _ ≡ n / 256 % 256 = bit_and_255 (shr n 8) ∙ omega arith in
    let e2 : _ ≡ n / 256 / 256 % 256 = bit_and_255 (shr n 16) ∙ omega arith in
    let e3 : _ ≡ n / 256 / 256 / 256 % 256 = bit_and_255 (shr n 24) ∙ omega arith in
    λ i. e0 i ∷ e1 i ∷ e2 i ∷ e3 i ∷ []

little_endian-split :
    (n : ℕ) → n < 2 ^ 32 → little_endian 8 n ≡ little_endian 4 n ++ little_endian 4 0
unfolding little_endian
little_endian-split n small =
    ap
      (λ t.
        n % 256
        ∷ n / 256 % 256
        ∷ n / 256 / 256 % 256
        ∷ n / 256 / 256 / 256 % 256
        ∷ little_endian 4 t)
      {x = n / 256 / 256 / 256 / 256} {y = 0} (omega arith)

take-replicate : (z n : ℕ) → z ≤ n → take {A = ℕ} z (replicate n 0) ≡ replicate z 0
take-replicate zero n h = refl
take-replicate (suc z) zero h = absurd (omega arith)
take-replicate (suc z) (suc n) h = ap (λ t. 0 ∷ t) (take-replicate z n (omega arith))

padding_length-eq : (r : ℕ) → r < 64 → padding_length r ≡ suc ((119 - r) % 64)
padding_length-eq r small = ground arith

padding-eq :
    (r : ℕ) → r < 64 → take (padding_length r) md5_padding ≡ 0x80 ∷ replicate ((119 - r) % 64) 0
padding-eq r small =
    ap (λ k. take k md5_padding) (padding_length-eq r small)
    ∙ ap (λ t. 0x80 ∷ t) (take-replicate ((119 - r) % 64) 63 (omega arith))

pub md5_starts-Represents : (junk : Bytes) → length junk ≡ 64 → Represents (md5_starts junk) []
unfolding md5_starts hash_blocks after_blocks
md5_starts-Represents junk full = record {
  q = 0;
  r = 0;
  absorbed = record { sized = refl; small = omega arith; hashed = refl; kept = refl; full = full };
  bits = refl;
  no_carry = refl;
}

message_bits :
    (c : Md5Context) (m : Bytes)
    → c.total0 ≡ 8 * length m
    → c.total1 ≡ 0
    → length m < bit_limit
    → put_uint32 c.total0 ++ put_uint32 c.total1 ≡ little_endian 8 (8 * length m)
message_bits c m e0 e1 few =
    (λ i. put_uint32 (e0 i) ++ put_uint32 (e1 i))
    ∙ (λ i. put_uint32-eq (8 * length m) i ++ put_uint32-eq 0 i)
    ∙ sym (little_endian-split (8 * length m) (omega (arith, few)))

state_bytes-eq : (r : Registers) → state_bytes r ≡ register_bytes r
unfolding register_bytes
state_bytes-eq r =
    λ i. put_uint32-eq r.a i ++ put_uint32-eq r.b i ++ put_uint32-eq r.c i ++ put_uint32-eq r.d i

-- At the end of a block all is hashed.
state-whole :
    (c : Md5Context) (m : Bytes)
    → Represents c m
    → length m % 64 ≡ 0
    → c.state ≡ hash_blocks (length m / 64) initial_state m
state-whole c m v whole =
    v.absorbed.hashed
    ∙ ap (λ q. hash_blocks q initial_state m) {x = v.q} {y = length m / 64}
        (omega (arith, v.absorbed.sized, v.absorbed.small, whole))

update_by :
    (c : Md5Context) (m x : Bytes) (n : ℕ)
    → Represents c m
    → length x ≡ n
    → length m + n < bit_limit
    → Represents (md5_update c x n) (m ++ x)
update_by c m x n v e few =
    subst (λ k. Represents (md5_update c x k) (m ++ x)) e
      (md5_update-Represents c m x v (omega (arith, e, few)))

length-little_endian : (k n : ℕ) → length (little_endian k n) ≡ k
unfolding little_endian
length-little_endian zero n = refl
length-little_endian (suc k) n = ap suc (length-little_endian k (n / 256))

-- `md5_finish` pads the text that the context represents.
md5_finish-Represents :
    (c : Md5Context) (m : Bytes)
    → Represents c m
    → length m + 72 < bit_limit
    → md5_finish c ≡ register_bytes (hash_blocks (length (padded m) / 64) initial_state (padded m))
unfolding md5_finish padded
md5_finish-Represents c m v few =
    ap
      (λ k.
        digest (take (padding_length k) md5_padding) (padding_length k)
          (put_uint32 c.total0 ++ put_uint32 c.total1))
      (bytes_buffered-eq c (length m) v.bits)
    ∙ ap (digest _ _) (message_bits c m v.bits v.no_carry (omega (arith, few)))
    ∙ (λ i. digest (padding-eq r small i) (padding_length-eq r small i) bits)
    ∙ state_bytes-eq (md5_update c1 bits 8).state
    ∙ ap register_bytes (state-whole (md5_update c1 bits 8) (m ++ pad ++ bits) v2 whole)
  where
    digest : Bytes → ℕ → Bytes → Bytes
    digest padding n len = state_bytes (md5_update (md5_update c padding n) len 8).state

    r : ℕ
    r = length m % 64

    small : r < 64
    small = omega arith

    pad : Bytes
    pad = 0x80 ∷ replicate ((119 - r) % 64) 0

    bits : Bytes
    bits = little_endian 8 (8 * length m)

    length_pad : length pad ≡ suc ((119 - r) % 64)
    length_pad = ap suc (length-replicate ((119 - r) % 64) 0)

    c1 : Md5Context
    c1 = md5_update c pad (suc ((119 - r) % 64))

    v2 : Represents (md5_update c1 bits 8) (m ++ pad ++ bits)
    v2 =
        update_by c1 (m ++ pad) bits 8
          (update_by c m pad (suc ((119 - r) % 64)) v length_pad (omega (arith, few)))
          (length-little_endian 8 (8 * length m))
          (omega (arith, few, length-append m pad, length_pad))

    whole : length (m ++ pad ++ bits) % 64 ≡ 0
    whole = omega (
      arith,
      length-append (m ++ pad) bits,
      length-append m pad,
      length_pad,
      length-little_endian 8 (8 * length m),
    )

-- For every text of less than 2^29 - 72 bytes and every content `junk` of the stack, the digest
-- that `GenerateMD5` writes is that of the text padded as RFC 1321 says, taken block by block.
pub generate_md5-padded :
    (junk m : Bytes)
    → length junk ≡ 64
    → length m + 72 < bit_limit
    → generate_md5 junk m (length m)
      ≡ register_bytes (hash_blocks (length (padded m) / 64) initial_state (padded m))
unfolding generate_md5
generate_md5-padded junk m full few =
    md5_finish-Represents (md5_update (md5_starts junk) m (length m)) m
      (md5_update-Represents (md5_starts junk) [] m (md5_starts-Represents junk full)
        (omega (arith, few)))
      few
