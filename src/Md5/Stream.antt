-- ===== src/Md5/Stream.antt =====
-- GRPC/src/Md5.cc: `md5_update` and `md5_finish`, and `GenerateMD5`.
use Prim.Native.Nat.{bit_and}
use docker_compose_seckill_s.Base.{
  ℕ, zero, suc, ◌+◌, ◌-◌, ◌&&◌, not, ◌∷◌, ◌++◌, Bytes, take, drop, replicate, if◌then◌else◌, ltb,
  leb, ◌==◌,
}
use docker_compose_seckill_s.Md5.Word.{add64, shl64, shr, put_uint32}
use docker_compose_seckill_s.Md5.Process.{Registers, Md5Context, md5_starts, md5_process}

-- `memcpy(buffer + at, input, n)`.
unfoldable pub memcpy_at : Bytes → ℕ → Bytes → ℕ → Bytes
memcpy_at buffer at input n = take at buffer ++ take n input ++ drop (at + n) buffer

-- The loop over whole blocks: the context, and the input that is left, with its length. One
-- round of fuel is one block.
unfoldable pub whole_blocks : ℕ → Md5Context → Bytes → ℕ → Md5Context × Bytes × ℕ
whole_blocks zero ctx input n = (ctx, input, n)
whole_blocks (suc fuel) ctx input n =
    let rest = whole_blocks fuel (md5_process ctx (take 64 input)) (drop 64 input) (n - 64) in
    if leb 64 n then rest else (ctx, input, n)

-- The rest of `md5_update`, once the buffer is empty or not to be filled.
unfoldable pub absorb : Md5Context → ℕ → Bytes → ℕ → Md5Context
absorb ctx left input n =
    let (ctx', input', n') = whole_blocks n ctx input n in
    if n' == 0 then ctx' else record ctx' { buffer = memcpy_at ctx'.buffer left input' n' }

abbrev pub bytes_buffered : Md5Context → ℕ
bytes_buffered ctx = bit_and (shr ctx.total0 3) 0x3f

unfoldable pub count_bits : Md5Context → ℕ → Md5Context
count_bits ctx n =
    let total0 = bit_and (add64 ctx.total0 (shl64 n 3)) 0xffff_ffff in
    record ctx {
      total0 = total0;
      total1 = add64 (add64 ctx.total1 (shr n 29)) (if ltb total0 (shl64 n 3) then 1 else 0);
    }

-- Fills the buffer and processes it.
unfoldable pub fill_buffer : Md5Context → ℕ → Bytes → ℕ → Md5Context
fill_buffer ctx left input fill =
    let buffer = memcpy_at ctx.buffer left input fill in
    md5_process (record ctx { buffer = buffer }) buffer

unfoldable pub md5_update : Md5Context → Bytes → ℕ → Md5Context
md5_update ctx input n =
    if n == 0
    then ctx
    else (let left = bytes_buffered ctx in
        let fill = 64 - left in
        let counted = count_bits ctx n in
        if not (left == 0) && leb fill n
        then absorb (fill_buffer counted left input fill) 0 (drop fill input) (n - fill)
        else absorb counted left input n)

abbrev pub md5_padding : Bytes
md5_padding = 0x80 ∷ replicate 63 0

abbrev pub padding_length : ℕ → ℕ
padding_length last = if ltb last 56 then 56 - last else 120 - last

abbrev pub state_bytes : Registers → Bytes
state_bytes r = put_uint32 r.a ++ put_uint32 r.b ++ put_uint32 r.c ++ put_uint32 r.d

unfoldable pub md5_finish : Md5Context → Bytes
md5_finish ctx =
    let msglen = put_uint32 ctx.total0 ++ put_uint32 ctx.total1 in
    let padn = padding_length (bytes_buffered ctx) in
    let padded = md5_update ctx (take padn md5_padding) padn in
    state_bytes (md5_update padded msglen 8).state

-- The digest that `GenerateMD5` writes; `junk` is what the context's buffer held. `bufferlen` is
-- within the buffer, as it is for the callers, which hand over `strlen` of it; to read beyond it is
-- undefined, and nothing is said of it.
unfoldable pub generate_md5 : Bytes → Bytes → ℕ → Bytes
generate_md5 junk buffer bufferlen = md5_finish (md5_update (md5_starts junk) buffer bufferlen)
