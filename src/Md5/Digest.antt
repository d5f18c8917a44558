-- ===== src/Md5/Digest.antt =====
-- GRPC/src/Md5.cc: `md5_update`, `md5_finish` and `GenerateMD5` against the definition of the
-- digest by the blocks of the padded text.
use mathlib.Core.List.{append-nil}
use docker_compose_seckill_s.Base.{
  ℕ, ◌+◌, ◌-◌, ◌*◌, ◌/◌, ◌%◌, ◌≤◌, ◌<◌, ◌≡◌, ◌⊎◌, refl, sym, ap, ◌∙◌, subst, [], ◌∷◌, ◌++◌,
  append_assoc, Bytes, take, drop, length, length-append, length-take, length-drop, take_all,
  take_then_drop, if◌then◌else◌, leb, ◌==◌, not, ◌&&◌, Bool, true, false, arith, inl, inr,
}
use docker_compose_seckill_s.Md5.Process.{Md5Context}
use docker_compose_seckill_s.Md5.Stream.{absorb, bytes_buffered, fill_buffer, memcpy_at, md5_update}
use docker_compose_seckill_s.Md5.Update.{
  Absorbed, absorb_block_end, absorb_little, fill_buffer-Absorbed,
}
use docker_compose_seckill_s.Md5.Bits.{
  bit_limit, absorb-totals, fill_buffer-totals, count_bits-eq, bytes_buffered-eq,
}

-- The context after the text `m`, as `md5_update` keeps it: less than 2^29 bytes.
pub record Represents (ctx : Md5Context) (m : Bytes) : Type 0 where
  pub q : ℕ
  pub r : ℕ
  pub absorbed : Absorbed q r ctx m
  pub bits : ctx.total0 ≡ 8 * length m
  pub no_carry : ctx.total1 ≡ 0

==_positive : (r : ℕ) → 0 < r → (r == 0) ≡ false
==_positive r h = ground arith

Absorbed-totals :
    (q r total0 total1 : ℕ) (ctx : Md5Context) (m : Bytes)
    → Absorbed q r ctx m
    → Absorbed q r (record ctx { total0 = total0; total1 = total1 }) m
Absorbed-totals q r total0 total1 ctx m v = record {
  sized = v.sized;
  small = v.small;
  hashed = v.hashed;
  kept = v.kept;
  full = v.full;
}

-- The ways through `md5_update`, once the bits are counted.
update_at_block :
    (q : ℕ) (ctx : Md5Context) (m x : Bytes)
    → Absorbed q 0 ctx m
    → ctx.total0 ≡ 8 * length (m ++ x)
    → ctx.total1 ≡ 0
    → Represents (absorb ctx 0 x (length x)) (m ++ x)
update_at_block q ctx m x v bits no_carry = record {
  q = q + length x / 64;
  r = length x % 64;
  absorbed =
      absorb_block_end q ctx m x (length x / 64) (length x % 64) v (omega arith) (omega arith);
  bits = (absorb-totals 0 ctx x).0 ∙ bits;
  no_carry = (absorb-totals 0 ctx x).1 ∙ no_carry;
}

update_short :
    (q r : ℕ) (ctx : Md5Context) (m x : Bytes)
    → Absorbed q r ctx m
    → ctx.total0 ≡ 8 * length (m ++ x)
    → ctx.total1 ≡ 0
    → 0 < length x
    → r + length x < 64
    → Represents (absorb ctx r x (length x)) (m ++ x)
update_short q r ctx m x v bits no_carry positive few = record {
  q = q;
  r = r + length x;
  absorbed = absorb_little q r ctx m x v few positive;
  bits = (absorb-totals r ctx x).0 ∙ bits;
  no_carry = (absorb-totals r ctx x).1 ∙ no_carry;
}

fill_buffer-take :
    (ctx : Md5Context) (left fill : ℕ) (x : Bytes)
    → fill_buffer ctx left (take fill x) fill ≡ fill_buffer ctx left x fill
unfolding fill_buffer memcpy_at
fill_buffer-take ctx left fill x =
    rw (take_all fill (take fill x) (omega (arith, length-take fill x))) refl

update_full :
    (q r : ℕ) (ctx : Md5Context) (m x : Bytes)
    → Absorbed q r ctx m
    → ctx.total0 ≡ 8 * length (m ++ x)
    → ctx.total1 ≡ 0
    → 64 - r ≤ length x
    → Represents
        (absorb (fill_buffer ctx r x (64 - r)) 0 (drop (64 - r) x) (length x - (64 - r)))
        (m ++ x)
update_full q r ctx m x v bits no_carry enough =
    subst (λ n. Represents (absorb (fill_buffer ctx r x (64 - r)) 0 (drop (64 - r) x) n) (m ++ x))
      (length-drop (64 - r) x)
      (subst (λ t. Represents (absorb (fill_buffer ctx r x (64 - r)) 0 back (length back)) t) whole
        (update_at_block (q + 1) (fill_buffer ctx r x (64 - r)) (m ++ front) back
          (subst (λ c. Absorbed (q + 1) 0 c (m ++ front)) (fill_buffer-take ctx r (64 - r) x)
            (fill_buffer-Absorbed q r ctx m front v
              (omega (arith, length-take (64 - r) x, enough))))
          (totals.0 ∙ bits ∙ ap (λ t. 8 * length t) (sym whole)) (totals.1 ∙ no_carry)))
  where
    front : Bytes
    front = take (64 - r) x

    back : Bytes
    back = drop (64 - r) x

    whole : (m ++ front) ++ back ≡ m ++ x
    whole = append_assoc m front back ∙ ap (λ t. m ++ t) (take_then_drop (64 - r) x)

    totals :
        ((fill_buffer ctx r x (64 - r)).total0 ≡ ctx.total0)
        × ((fill_buffer ctx r x (64 - r)).total1 ≡ ctx.total1)
    totals = fill_buffer-totals r (64 - r) ctx x

-- The buffer holds `r` bytes.
pub buffered : (ctx : Md5Context) (m : Bytes) (v : Represents ctx m) → bytes_buffered ctx ≡ v.r
buffered ctx m v =
    bytes_buffered-eq ctx (length m) v.bits ∙ omega (arith, v.absorbed.sized, v.absorbed.small)

-- Either the buffer is filled, or it is empty, or the input leaves room in it.
update_chosen :
    (b : Bool) (q r : ℕ) (ctx : Md5Context) (m x : Bytes)
    → Absorbed q r ctx m
    → ctx.total0 ≡ 8 * length (m ++ x)
    → ctx.total1 ≡ 0
    → 0 < length x
    → (b ≡ true → 64 - r ≤ length x)
    → (b ≡ false → (r ≡ 0) ⊎ (r + length x < 64))
    → Represents
        (if b
          then absorb (fill_buffer ctx r x (64 - r)) 0 (drop (64 - r) x) (length x - (64 - r))
          else absorb ctx r x (length x))
        (m ++ x)
update_chosen true q r ctx m x v bits no_carry positive fills rests =
    update_full q r ctx m x v bits no_carry (fills refl)
update_chosen false q r ctx m x v bits no_carry positive fills rests = elim (rests refl) [
  | inl empty ↦
      subst (λ k. Represents (absorb ctx k x (length x)) (m ++ x)) (sym empty)
        (update_at_block q ctx m x (subst (λ k. Absorbed q k ctx m) empty v) bits no_carry)
  | inr few ↦ update_short q r ctx m x v bits no_carry positive few
]

update_test :
    (r n : ℕ)
    → r < 64
    → let b = not (r == 0) && leb (64 - r) n in
      (b ≡ true → 64 - r ≤ n) × (b ≡ false → (r ≡ 0) ⊎ (r + n < 64))
update_test r n small = (λ h. ground arith, λ h. ground arith)

updated :
    (ctx : Md5Context) (m x : Bytes) (v : Represents ctx m)
    → length m + length x < bit_limit
    → 0 < length x
    → let c = record ctx { total0 = 8 * (length m + length x); total1 = 0 } in
      Represents
        (if not (v.r == 0) && leb (64 - v.r) (length x)
          then absorb (fill_buffer c v.r x (64 - v.r)) 0 (drop (64 - v.r) x) (length x - (64 - v.r))
          else absorb c v.r x (length x))
        (m ++ x)
updated ctx m x v few positive =
    let test = update_test v.r (length x) v.absorbed.small in
    update_chosen _ v.q v.r _ m x (Absorbed-totals v.q v.r _ _ ctx m v.absorbed)
      (omega (arith, length-append m x)) refl positive test.0 test.1

-- `md5_update` keeps the context of the text so far, wherever the text is cut, for less than
-- 2^29 bytes in all.
pub md5_update-Represents :
    (ctx : Md5Context) (m x : Bytes)
    → Represents ctx m
    → length m + length x < bit_limit
    → Represents (md5_update ctx x (length x)) (m ++ x)
unfolding md5_update
md5_update-Represents ctx m [] v few = subst (Represents ctx) (sym (append-nil m)) v
md5_update-Represents ctx m (c ∷ x) v few =
    rw
      (
        ==_positive (length (c ∷ x)) (omega arith),
        buffered ctx m v,
        count_bits-eq ctx (length m) (length (c ∷ x)) v.bits v.no_carry few,
      )
      (updated ctx m (c ∷ x) v few (omega arith))
