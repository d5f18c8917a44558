-- ===== src/Worker/Answer.antt =====
-- GRPC/src/Worker.cc: `seckillGoods` and the middle of `Proceed` end as Worker/Verdict.antt says.
use docker_compose_seckill_s.Base.{
  ℕ, ◌<◌, ◌≡◌, refl, ap, subst, ◌∙◌, Bool, true, false, Bytes, ◌⊎◌, inl, inr, Option, codes, arith,
  ltb, ltb→lt,
}
use docker_compose_seckill_s.Services.{Services}
use docker_compose_seckill_s.Machine.{Machine, M, when, modify, ◌>>◌}
use docker_compose_seckill_s.Machine.Calls.{set_result}
use docker_compose_seckill_s.Machine.Quiet.{
  Books, books, books_frame, Ensures, quiet_then, Ensures-gets, Ensures-bind, Ensures-map,
  command-Keeps, is_ok-Keeps,
}
use docker_compose_seckill_s.Worker.Keep.{check_user_has_got_mysql-IsQuiet}
use docker_compose_seckill_s.Worker.Goods.{put_back, restock}
use docker_compose_seckill_s.Worker.Ending.{Ending, answer-Answers}
use docker_compose_seckill_s.Worker.Proceed.{answer}
use docker_compose_seckill_s.Worker.Verdict.{
  Verdict, refused, restocked, answered, write_lock-books, unlock-books, set_result-books,
  seckill_goods_mysql-Verdict,
}

module _ (sv : Services) (fuel : ℕ) where
  -- The failures are as they were, or there were some and the record is cleared.
  abbrev MayClear : Books → Books → Type 0
  MayClear b b' = (b' ≡ b) ⊎ ((0 < b.failed_count) × (b' ≡ record b { failed_count = 0 }))

  clear-books :
      (ok : Bool) (m m1 : Machine sv)
      → 0 < m.failed_count
      → books m1 ≡ books m
      → Ensures
          (when ok (modify {sv = sv} λ x. record x { failed_count = 0 }))
          m1
          (λ _ m'. MayClear (books m) (books m'))
  clear-books true m m1 some_failed e = record {
    apply = inr (some_failed, ap {A = Books} (λ b. record b { failed_count = 0 }) e);
  }
  clear-books false m m1 some_failed e = record { apply = inl e }

  put_back-books :
      (conn : Option ℕ) (failed : ℕ) (m : Machine sv)
      → 0 < m.failed_count
      → Ensures (put_back sv fuel conn failed) m (λ _ m'. MayClear (books m) (books m'))
  unfolding put_back
  put_back-books conn failed m some_failed =
      quiet_then (command-Keeps sv conn _ _) λ r m1 e1.
        quiet_then (is_ok-Keeps sv r) λ ok m2 e2. clear-books ok m m2 some_failed (e2 ∙ e1)

  when-books :
      (b : Bool) (act : M sv (Unit {0})) (m : Machine sv)
      → (b ≡ true → Ensures act m (λ _ m'. MayClear (books m) (books m')))
      → Ensures (when b act) m (λ _ m'. MayClear (books m) (books m'))
  when-books true act m h = h refl
  when-books false act m h = record { apply = inl refl }

  locked_and_back :
      (b b1 b2 b3 : Books)
      → b.write_locked ≡ false
      → b1 ≡ record b { write_locked = true }
      → MayClear b1 b2
      → b3 ≡ record b2 { write_locked = false }
      → MayClear b b3
  locked_and_back b b1 b2 b3 free e1 (inl e2) e3 = inl (ground arith)
  locked_and_back b b1 b2 b3 free e1 (inr (pos, e2)) e3 = inr (ground arith, ground arith)

  restock-books :
      (conn : Option ℕ) (m : Machine sv)
      → m.write_locked ≡ false
      → Ensures (restock sv fuel conn) m (λ _ m'. MayClear (books m) (books m'))
  unfolding restock
  restock-books conn m free = Ensures-bind (write_lock-books sv m) λ _ m1 e1.
      Ensures-bind (Ensures-gets (λ x. x.failed_count) m1) λ failed m2 g.
        Ensures-bind
          (when-books (ltb 0 failed) _ m2
            (λ t. put_back-books conn failed m2 (subst (λ k. 0 < k) g.0 (ltb→lt 0 _ t))))
          λ _ m3 r.
            Ensures-map (unlock-books sv m3) λ _ m4 e4. locked_and_back _ _ _ _ free (g.1 ∙ e1) r e4

  -- The answer "0" after it.
  answered_zero :
      (b b1 b2 b3 : Books) → b1 ≡ b → MayClear b1 b2 → b3 ≡ answered (codes "0") b2 → Verdict b b3
  answered_zero b b1 b2 b3 e1 (inl e2) e3 = refused (ground arith)
  answered_zero b b1 b2 b3 e1 (inr (pos, e2)) e3 = restocked (ground arith) (ground arith)

  sold_out_restocks :
      (conn : Option ℕ) (m : Machine sv)
      → m.write_locked ≡ false
      → Ensures
          (do restock sv fuel conn; set_result sv (codes "0"))
          m
          (λ _ m'. Verdict (books m) (books m'))
  sold_out_restocks conn m free =
      Ensures-bind (restock-books conn m free)
        λ _ m2 r. Ensures-map (set_result-books sv _ m2) λ _ m3 e3. answered_zero _ _ _ _ refl r e3

  -- Every way of answering gives a verdict.
  abbrev verdicts : Ending sv fuel
  verdicts = record {
    frame = books_frame sv;
    Ready = λ b. b.write_locked ≡ false;
    Ends = Verdict;
    plain = λ c t select. tt;
    refuses = λ m free. Ensures-map (set_result-books sv _ m) λ _ m1 e. refused e;
    restocks = sold_out_restocks;
    orders = seckill_goods_mysql-Verdict sv fuel;
    looks = check_user_has_got_mysql-IsQuiet sv fuel;
  }

  -- Whatever the servers answer, if the lock is free, no request is tried more than `RETRYCOUNT`
  -- times, and one that is processed to its end gets the answer "1" and is counted as a success,
  -- or gets "0" and is not; a failure is recorded at most once, the record is cleared only when
  -- there was one, the lock is free again, and neither the request nor another worker is touched.
  pub answer-Verdict :
      (name key : Bytes) (redis mysql : Option ℕ) (m : Machine sv)
      → m.write_locked ≡ false
      → Ensures (answer sv fuel name key redis mysql) m (λ _ m'. Verdict (books m) (books m'))
  answer-Verdict name key redis mysql m free =
      (answer-Answers verdicts name key redis mysql).apply m free
