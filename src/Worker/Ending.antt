-- ===== src/Worker/Ending.antt =====
-- GRPC/src/Worker.cc: `seckillGoods` and the middle of `Proceed`, for whatever relation every
-- way of answering establishes.
use docker_compose_seckill_s.Base.{
  ℕ, zero, suc, ◌+◌, ◌≤◌, ◌<◌, sym, subst, Bool, true, false, Bytes, inl, inr, Option, none, some,
  codes, arith, if◌then◌else◌, ltb, ltb→lt, Bool-cases,
}
use docker_compose_seckill_s.Services.{Services, Reply}
use docker_compose_seckill_s.Machine.{Machine, M, ◌>>=◌, ◌>>◌}
use docker_compose_seckill_s.Machine.Calls.{set_result}
use docker_compose_seckill_s.Machine.Quiet.{
  Ensures, Frame, Keeps, Keeps-if, Keeps-pure, keeps_then, Ensures-bind, Ensures-map, command-Keeps,
  free_reply-Keeps, is_ok-Keeps, parse_int-Keeps,
}
use docker_compose_seckill_s.Worker.Keep.{check_user_info-Keeps, check_user_has_got-Keeps}
use docker_compose_seckill_s.Worker.Check.{check_user_has_got_mysql}
use docker_compose_seckill_s.Worker.Stock.{IsSelect}
use docker_compose_seckill_s.Worker.Order.{seckill_goods_mysql}
use docker_compose_seckill_s.Worker.Goods.{
  restock, sold_out, try_again, transact, buy, attempt, seckill_goods, retry_count,
}
use docker_compose_seckill_s.Worker.Proceed.{answer}

-- What is looked at, what has to hold of it before, and how before and after are related.
pub record Ending (sv : Services) (fuel : ℕ) : Type 1 where
  pub frame : Frame sv
  pub Ready : frame.Seen → Type 0
  pub Ends : frame.Seen → frame.Seen → Type 0
  pub plain : (c : ℕ) (t : Bytes) → IsSelect t → frame.Plain c t
  pub refuses :
      (m : Machine sv)
      → Ready (frame.see m)
      → Ensures (set_result sv (codes "0")) m (λ _ m'. Ends (frame.see m) (frame.see m'))
  pub restocks :
      (conn : Option ℕ) (m : Machine sv)
      → Ready (frame.see m)
      → Ensures
          (do restock sv fuel conn; set_result sv (codes "0"))
          m
          (λ _ m'. Ends (frame.see m) (frame.see m'))
  pub orders :
      (name key : Bytes) (conn : Option ℕ) (m : Machine sv)
      → Ready (frame.see m)
      → Ensures
          (seckill_goods_mysql sv fuel name key conn)
          m
          (λ _ m'. Ends (frame.see m) (frame.see m'))
  pub looks :
      (name key : Bytes) (conn : Option ℕ)
      → Keeps frame (check_user_has_got_mysql sv fuel name key conn)

module _ {sv : Services} {fuel : ℕ} (en : Ending sv fuel) where
  open en use {frame, Ready, Ends}

  -- The code answers the request from every state in which it may start.
  pub record Answers (act : M sv (Unit {0})) : Type 0 where
    pub apply :
        (m : Machine sv)
        → Ready (frame.see m)
        → Ensures act m (λ _ m'. Ends (frame.see m) (frame.see m'))

  begin_with :
      {A : Type 0} {act : M sv A} {f : A → M sv (Unit {0})}
      → Keeps frame act
      → ((a : A) → Answers (f a))
      → Answers (act >>= f)
  begin_with q k = record {
    apply = λ m ready. keeps_then q λ a m1 e.
        Ensures-map ((k a).apply m1 (subst Ready (sym e) ready))
          λ _ m2 v. subst (λ s. Ends s (frame.see m2)) e v;
  }

  end_with :
      {act : M sv (Unit {0})} {next : M sv (Unit {0})}
      → Answers act
      → Keeps frame next
      → Answers (act >> next)
  end_with {act} {next} h q = record {
    apply = λ m ready.
        Ensures-bind (h.apply m ready)
          λ _ m1 v. Ensures-map (q.apply m1) λ _ m2 e. subst (Ends (frame.see m)) (sym e) v;
  }

  Answers-if :
      (b : Bool) {x y : M sv (Unit {0})} → Answers x → Answers y → Answers (if b then x else y)
  Answers-if true h k = h
  Answers-if false h k = k

  refused_lem : Answers (set_result sv (codes "0"))
  refused_lem = record { apply = en.refuses }

  sold_out-Answers : (conn : Option ℕ) → Answers (sold_out sv fuel conn)
  unfolding sold_out
  sold_out-Answers conn =
      begin_with (command-Keeps sv conn _ _) λ _. record { apply = en.restocks conn }

  try_again-Answers :
      (conn : Option ℕ) (n : ℕ) (retry : M sv (Unit {0}))
      → (n < retry_count → Answers retry)
      → Answers (try_again sv fuel conn n retry)
  unfolding try_again
  try_again-Answers conn n retry again = begin_with (command-Keeps sv conn _ _) λ _.
      elim (Bool-cases (ltb n retry_count)) [
        | inl more ↦ rw more (again (ltb→lt n _ more))
        | inr last ↦ rw last refused_lem
      ]

  module _ (name key : Bytes) (conn connection : Option ℕ) (n : ℕ) (retry : M sv (Unit {0}))
      (again : n < retry_count → Answers retry) where
    transact-Answers :
        (multi : Option Reply) → Answers (transact sv fuel name key conn connection n retry multi)
    unfolding transact
    transact-Answers multi = begin_with (command-Keeps sv conn _ _) λ _.
        begin_with (command-Keeps sv conn _ _) λ _. begin_with (command-Keeps sv conn _ _) λ exec.
          Answers-if _
            (begin_with (free_reply-Keeps sv exec)
              λ _. record { apply = en.orders name key connection })
            (begin_with (free_reply-Keeps sv exec)
              λ _. end_with (try_again-Answers conn n retry again) (free_reply-Keeps sv multi))

    buy-Answers : Answers (buy sv fuel name key conn connection n retry)
    unfolding buy
    buy-Answers = begin_with (command-Keeps sv conn _ _) λ multi.
        begin_with (is_ok-Keeps sv multi) λ opened.
          Answers-if opened (transact-Answers multi)
            (end_with (try_again-Answers conn n retry again) (free_reply-Keeps sv multi))

    attempt-Answers : Answers (attempt sv fuel name key conn connection n retry)
    unfolding attempt
    attempt-Answers = begin_with (command-Keeps sv conn _ _) λ watch.
        begin_with (command-Keeps sv conn _ _) λ reply.
          begin_with (Keeps-if _ (is_ok-Keeps sv watch) (Keeps-pure false)) λ watched.
            Answers-if watched
              (begin_with (parse_int-Keeps sv _) λ count.
                begin_with (free_reply-Keeps sv watch) λ _.
                  begin_with (free_reply-Keeps sv reply)
                    λ _. Answers-if _ buy-Answers (sold_out-Answers conn))
              (begin_with (free_reply-Keeps sv watch)
                λ _. begin_with (free_reply-Keeps sv reply) λ _. refused_lem)

  pub seckill_goods-Answers :
      (passes : ℕ) (name key : Bytes) (conn connection : Option ℕ) (n : ℕ)
      → n < retry_count
      → retry_count ≤ n + passes
      → Answers (seckill_goods sv fuel passes name key conn connection n)
  unfolding seckill_goods
  seckill_goods-Answers zero name key conn connection n few enough = absurd (omega arith)
  seckill_goods-Answers (suc passes) name key none connection n few enough = record {
    apply = en.orders name key connection;
  }
  seckill_goods-Answers (suc passes) name key (some c) connection n few enough =
      attempt-Answers name key (some c) connection (n + 1) _
        λ more. seckill_goods-Answers passes name key (some c) connection (n + 1) more (omega arith)

  pub answer-Answers :
      (name key : Bytes) (redis mysql : Option ℕ) → Answers (answer sv fuel name key redis mysql)
  unfolding answer
  answer-Answers name key redis mysql =
      begin_with (check_user_info-Keeps sv fuel en.plain name key redis mysql) λ known.
        Answers-if known
          (begin_with
            (check_user_has_got-Keeps sv fuel name key redis mysql (en.looks name key mysql))
            λ got.
              Answers-if got refused_lem
                (seckill_goods-Answers _ name key redis mysql 0 (omega arith) (omega arith)))
          refused_lem
