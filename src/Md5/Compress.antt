-- ===== src/Md5/Compress.antt =====
-- GRPC/src/Md5.cc: `md5_process` computes, in the lower halves of its registers, what RFC 1321
-- computes on words of 32 bits.
use docker_compose_seckill_s.Base.{
  ℕ, zero, suc, ◌+◌, ◌%◌, ◌^◌, ◌<◌, ◌≡◌, refl, ◌∙◌, ap, arith, List, [], ◌∷◌, get_or, map,
}
use docker_compose_seckill_s.Md5.Word.{add64, rotate}
use docker_compose_seckill_s.Md5.Table.{Operation, round1, round2, round3, round4}
use docker_compose_seckill_s.Md5.Process.{Registers, operate, operate_all}
use docker_compose_seckill_s.Md5.Rfc.{
  word_mod, rfc_f, rfc_g, rfc_h, rfc_i, rotate_left, word, word-rotate,
}

-- The lower halves.
abbrev pub narrow : Registers → Registers
narrow r = record { a = word r.a; b = word r.b; c = word r.c; d = word r.d }

-- The reference: [abcd k s i] is a = b + ((a + F(b,c,d) + X[k] + T[i]) <<< s).
pub rfc_operate : (ℕ → ℕ → ℕ → ℕ) → List ℕ → Operation → Registers → Registers
rfc_operate f x op r = record {
  a = r.d;
  b =
      (rotate_left ((r.a + (f r.b r.c r.d + get_or x op.k 0 + op.t)) % word_mod) op.s + r.b)
      % word_mod;
  c = r.b;
  d = r.c;
}

pub rfc_operate_all : (ℕ → ℕ → ℕ → ℕ) → List ℕ → List Operation → Registers → Registers
rfc_operate_all f x [] r = r
rfc_operate_all f x (op ∷ ops) r = rfc_operate_all f x ops (rfc_operate f x op r)

unfoldable pub rfc_compress : Registers → List ℕ → Registers
rfc_compress r x =
    let q = rfc_operate_all rfc_i x round4 (
      rfc_operate_all rfc_h x round3
        (rfc_operate_all rfc_g x round2 (rfc_operate_all rfc_f x round1 r))) in
    record {
      a = (r.a + q.a) % word_mod;
      b = (r.b + q.b) % word_mod;
      c = (r.c + q.c) % word_mod;
      d = (r.d + q.d) % word_mod;
    }

pub word-add64 : (a b : ℕ) → word (add64 a b) ≡ word (word a + word b)
word-add64 a b = omega arith

word-sum :
    (a f x t g y : ℕ)
    → word f ≡ g
    → y ≡ word x
    → word (add64 a (add64 (add64 f x) t)) ≡ word (word a + (g + y + t))
word-sum a f x t g y e e' = omega (arith, e, e')

get_or-map : (x : List ℕ) (k : ℕ) → get_or (map word x) k 0 ≡ word (get_or x k 0)
get_or-map [] k = refl
get_or-map (w ∷ x) zero = refl
get_or-map (w ∷ x) (suc k) = get_or-map x k

-- The registers that the macros negate are 64-bit words.
pub record InRange (r : Registers) : Type 0 where
  pub b_fits : r.b < 2 ^ 64
  pub c_fits : r.c < 2 ^ 64
  pub d_fits : r.d < 2 ^ 64

module _ (f g : ℕ → ℕ → ℕ → ℕ)
    (word-f : (x y z : ℕ) → z < 2 ^ 64 → word (f x y z) ≡ g (word x) (word y) (word z))
    (x : List ℕ) where
  operate-InRange : (op : Operation) (r : Registers) → InRange r → InRange (operate f x op r)
  unfolding operate
  operate-InRange op r v = record { b_fits = omega arith; c_fits = v.b_fits; d_fits = v.c_fits }

  narrow-sum :
      (op : Operation) (r : Registers)
      → InRange r
      → word (add64 r.a (add64 (add64 (f r.b r.c r.d) (get_or x op.k 0)) op.t))
        ≡ (word r.a + (g (word r.b) (word r.c) (word r.d) + get_or (map word x) op.k 0 + op.t))
          % word_mod
  narrow-sum op r v =
      word-sum r.a (f r.b r.c r.d) (get_or x op.k 0) op.t _ _ (word-f r.b r.c r.d v.d_fits)
        (get_or-map x op.k)

  narrow-operate :
      (op : Operation) (r : Registers)
      → InRange r
      → narrow (operate f x op r) ≡ rfc_operate g (map word x) op (narrow r)
  unfolding operate rfc_operate
  narrow-operate op r v =
      let b =
        word-add64 (rotate (add64 r.a (add64 (add64 (f r.b r.c r.d) (get_or x op.k 0)) op.t)) op.s)
          r.b
        ∙ (λ i.
            (word-rotate (add64 r.a (add64 (add64 (f r.b r.c r.d) (get_or x op.k 0)) op.t)) op.s i
              + word r.b)
            % word_mod)
        ∙ (λ i. (rotate_left (narrow-sum op r v i) op.s + word r.b) % word_mod) in
      λ i. record { a = word r.d; b = b i; c = word r.b; d = word r.c }

  pub operate_all-InRange :
      (ops : List Operation) (r : Registers) → InRange r → InRange (operate_all f x ops r)
  unfolding operate_all
  operate_all-InRange [] r v = v
  operate_all-InRange (op ∷ ops) r v =
      operate_all-InRange ops (operate f x op r) (operate-InRange op r v)

  pub narrow-operate_all :
      (ops : List Operation) (r : Registers)
      → InRange r
      → narrow (operate_all f x ops r) ≡ rfc_operate_all g (map word x) ops (narrow r)
  unfolding operate_all rfc_operate_all
  narrow-operate_all [] r v = refl
  narrow-operate_all (op ∷ ops) r v =
      narrow-operate_all ops (operate f x op r) (operate-InRange op r v)
      ∙ ap (rfc_operate_all g (map word x) ops) (narrow-operate op r v)
