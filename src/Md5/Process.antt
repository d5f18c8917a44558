-- ===== src/Md5/Process.antt =====
-- GRPC/src/Md5.cc: `md5_starts` and `md5_process`.
use docker_compose_seckill_s.Base.{ℕ, List, [], ◌∷◌, Bytes, get_or}
use docker_compose_seckill_s.Md5.Table.{Operation, round1, round2, round3, round4}
use docker_compose_seckill_s.Md5.Word.{add64, rotate, f1, f2, f3, f4, get_uint32}

-- The registers A, B, C and D, or `ctx->state`.
pub record Registers : Type 0 where
  pub a : ℕ
  pub b : ℕ
  pub c : ℕ
  pub d : ℕ

-- `struct md5_context`.
pub record Md5Context : Type 0 where
  pub total0 : ℕ
  pub total1 : ℕ
  pub state : Registers
  pub buffer : Bytes

abbrev pub initial_state : Registers
initial_state = record { a = 0x6745_2301; b = 0xefcd_ab89; c = 0x98ba_dcfe; d = 0x1032_5476 }

-- The buffer of a context on the stack holds anything.
unfoldable pub md5_starts : Bytes → Md5Context
md5_starts junk = record { total0 = 0; total1 = 0; state = initial_state; buffer = junk }

-- The words X[i], …, X[15] of a block of 64 bytes.
unfoldable pub words : Bytes → List ℕ
words data_ =
    get_uint32 data_ 0
    ∷ get_uint32 data_ 4
    ∷ get_uint32 data_ 8
    ∷ get_uint32 data_ 12
    ∷ get_uint32 data_ 16
    ∷ get_uint32 data_ 20
    ∷ get_uint32 data_ 24
    ∷ get_uint32 data_ 28
    ∷ get_uint32 data_ 32
    ∷ get_uint32 data_ 36
    ∷ get_uint32 data_ 40
    ∷ get_uint32 data_ 44
    ∷ get_uint32 data_ 48
    ∷ get_uint32 data_ 52
    ∷ get_uint32 data_ 56
    ∷ get_uint32 data_ 60
    ∷ []

-- The macro `P` with the first register as its target, and the registers in the order in which
-- the next line names them.
unfoldable pub operate : (ℕ → ℕ → ℕ → ℕ) → List ℕ → Operation → Registers → Registers
operate f x op r = record {
  a = r.d;
  b = add64 (rotate (add64 r.a (add64 (add64 (f r.b r.c r.d) (get_or x op.k 0)) op.t)) op.s) r.b;
  c = r.b;
  d = r.c;
}

unfoldable pub operate_all : (ℕ → ℕ → ℕ → ℕ) → List ℕ → List Operation → Registers → Registers
operate_all f x [] r = r
operate_all f x (op ∷ ops) r = operate_all f x ops (operate f x op r)

abbrev pub rounds : List ℕ → Registers → Registers
rounds x r =
    operate_all f4 x round4
      (operate_all f3 x round3 (operate_all f2 x round2 (operate_all f1 x round1 r)))

abbrev pub add_registers : Registers → Registers → Registers
add_registers r q = record {
  a = add64 r.a q.a;
  b = add64 r.b q.b;
  c = add64 r.c q.c;
  d = add64 r.d q.d;
}

unfoldable pub md5_process : Md5Context → Bytes → Md5Context
md5_process ctx data_ = record ctx {
  state = add_registers ctx.state (rounds (words data_) ctx.state);
}
