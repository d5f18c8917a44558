-- ===== src/Md5/Digits.antt =====
-- GRPC/src/Md5.cc: what `GenerateMD5` writes is sixteen bytes.
use docker_compose_seckill_s.Base.{
  AreBytes, AreBytes-append, ℕ, ◌≡◌, refl, sym, subst, ◌++◌, Bytes, length, arith,
}
use docker_compose_seckill_s.Md5.Stream.{generate_md5, md5_finish, state_bytes}
use docker_compose_seckill_s.Md5.Process.{Registers}
use docker_compose_seckill_s.Md5.Word.{put_uint32}
use docker_compose_seckill_s.Md5.Disjoint.{put_uint32_lem}

put_uint32-AreBytes : (n : ℕ) → AreBytes (put_uint32 n)
put_uint32-AreBytes n =
    subst AreBytes (sym (put_uint32_lem n))
      (omega arith, (omega arith, (omega arith, (omega arith, tt))))

length-put_uint32 : (n : ℕ) → length (put_uint32 n) ≡ 4
unfolding put_uint32
length-put_uint32 n = refl

state_bytes-AreBytes : (r : Registers) → AreBytes (state_bytes r)
state_bytes-AreBytes r =
    AreBytes-append (put_uint32 r.a ++ put_uint32 r.b ++ put_uint32 r.c) (put_uint32 r.d)
      (AreBytes-append (put_uint32 r.a ++ put_uint32 r.b) (put_uint32 r.c)
        (AreBytes-append (put_uint32 r.a) (put_uint32 r.b) (put_uint32-AreBytes r.a)
          (put_uint32-AreBytes r.b))
        (put_uint32-AreBytes r.c))
      (put_uint32-AreBytes r.d)

length-state_bytes : (r : Registers) → length (state_bytes r) ≡ 16
unfolding put_uint32
length-state_bytes r = refl

pub generate_md5-AreBytes :
    (junk buffer : Bytes) (n : ℕ)
    → AreBytes (generate_md5 junk buffer n) × (length (generate_md5 junk buffer n) ≡ 16)
unfolding generate_md5 md5_finish
generate_md5-AreBytes junk buffer n = (state_bytes-AreBytes _, length-state_bytes _)
