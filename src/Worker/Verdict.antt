-- ===== src/Worker/Verdict.antt =====
-- GRPC/src/Worker.cc: how a request can end. The answer, the counters and the lock.
use docker_compose_seckill_s.Base.{
  ℕ, ◌+◌, ◌<◌, ◌≡◌, refl, sym, ap, ◌∙◌, subst, Bool, true, false, Bytes, Option, codes, arith, ltb,
  Bool-cases, inl, inr, int_max,
}
use docker_compose_seckill_s.Services.{Services}
use docker_compose_seckill_s.Machine.{Machine}
use docker_compose_seckill_s.Machine.Calls.{
  write_lock, unlock, set_result, count_failure, count_success,
}
use docker_compose_seckill_s.Machine.Quiet.{
  Books, books, Ensures, quiet_then, Ensures-bind, Ensures-map, Ensures-if, rollback-IsQuiet,
  commit-IsQuiet, autocommit-IsQuiet,
}
use docker_compose_seckill_s.Worker.Order.{end_order, seckill_goods_mysql}
use docker_compose_seckill_s.Worker.Keep.{read_stock-Keeps, write_order-Keeps}

abbrev pub answered : Bytes → Books → Books
answered t b = record b { self = record (b.self) { response = t } }

-- What the books are after a request, given what they were.
pub data Verdict (b b' : Books) : Type 0 where
  sold : b' ≡ record (answered (codes "1") b) { success_num = b.success_num + 1 } → Verdict b b'
  refused : b' ≡ answered (codes "0") b → Verdict b b'
  recorded :
      b' ≡ record (answered (codes "0") b) { failed_count = b.failed_count + 1 } → Verdict b b'
  restocked :
      0 < b.failed_count → b' ≡ record (answered (codes "0") b) { failed_count = 0 } → Verdict b b'

-- Quiet steps before and after do not matter.
pub Verdict-between : {a b c d : Books} → b ≡ a → d ≡ c → Verdict b c → Verdict a d
Verdict-between {d} p q v = subst (λ x. Verdict x d) p (subst (Verdict _) (sym q) v)

module _ (sv : Services) where
  count_failure-books :
      (m : Machine sv)
      → Ensures
          (count_failure sv)
          m
          (λ _ m'. books m' ≡ record (books m) { failed_count = m.failed_count + 1 })
  unfolding count_failure
  count_failure-books m = elim (Bool-cases (ltb m.failed_count int_max)) [
    | inl e ↦ record { apply = rw e refl }
    | inr e ↦ record { apply = rw e refl }
  ]

  count_success-books :
      (m : Machine sv)
      → Ensures
          (count_success sv)
          m
          (λ _ m'. books m' ≡ record (books m) { success_num = m.success_num + 1 })
  unfolding count_success
  count_success-books m = elim (Bool-cases (ltb m.success_num int_max)) [
    | inl e ↦ record { apply = rw e refl }
    | inr e ↦ record { apply = rw e refl }
  ]

  pub set_result-books :
      (t : Bytes) (m : Machine sv)
      → Ensures (set_result sv t) m (λ _ m'. books m' ≡ answered t (books m))
  unfolding set_result
  set_result-books t m = record { apply = refl }

  -- A lock that nobody holds is taken.
  pub write_lock-books :
      (m : Machine sv)
      → Ensures (write_lock sv) m (λ _ m'. books m' ≡ record (books m) { write_locked = true })
  unfolding write_lock
  write_lock-books m = elim (Bool-cases m.write_locked) [
    | inl e ↦ record { apply = rw e refl }
    | inr e ↦ record { apply = rw e refl }
  ]

  pub unlock-books :
      (m : Machine sv)
      → Ensures (unlock sv) m (λ _ m'. books m' ≡ record (books m) { write_locked = false })
  unfolding unlock
  unlock-books m = record { apply = refl }

  module _ (fuel : ℕ) where
    end_order_failed :
        (conn : Option ℕ) (m : Machine sv)
        → m.write_locked ≡ false
        → Ensures (end_order sv fuel conn false) m (λ _ m'. Verdict (books m) (books m'))
    unfolding end_order
    end_order_failed conn m free = quiet_then (rollback-IsQuiet sv conn) λ _ m1 e1.
        Ensures-bind (write_lock-books m1) λ _ m2 e2.
          Ensures-bind (count_failure-books m2) λ _ m3 e3.
            Ensures-bind (unlock-books m3)
              λ _ m4 e4. Ensures-map (set_result-books _ m4) λ _ m5 e5. recorded (ground arith)

    end_order_succeeded :
        (conn : Option ℕ) (m : Machine sv)
        → Ensures (end_order sv fuel conn true) m (λ _ m'. Verdict (books m) (books m'))
    unfolding end_order
    end_order_succeeded conn m = quiet_then (commit-IsQuiet sv conn) λ _ m1 e1.
        Ensures-bind (set_result-books _ m1)
          λ _ m2 e2. Ensures-map (count_success-books m2) λ _ m3 e3. sold (ground arith)

    end_order-Verdict :
        (is_suc : Bool) (conn : Option ℕ) (m : Machine sv)
        → m.write_locked ≡ false
        → Ensures (end_order sv fuel conn is_suc) m (λ _ m'. Verdict (books m) (books m'))
    end_order-Verdict true conn m free = end_order_succeeded conn m
    end_order-Verdict false conn m free = end_order_failed conn m free

    -- Every order from MySQL ends sold, recorded as a failure, or refused, and leaves the lock
    -- free.
    pub seckill_goods_mysql-Verdict :
        (name key : Bytes) (conn : Option ℕ) (m : Machine sv)
        → m.write_locked ≡ false
        → Ensures
            (seckill_goods_mysql sv fuel name key conn)
            m
            (λ _ m'. Verdict (books m) (books m'))
    unfolding seckill_goods_mysql
    seckill_goods_mysql-Verdict name key conn m free =
        quiet_then (autocommit-IsQuiet sv conn false) λ _ m1 e1.
          quiet_then (read_stock-Keeps sv fuel (λ _ _ _. tt) conn) λ n m2 e2.
            Ensures-if _
              (quiet_then (write_order-Keeps sv fuel (λ _ _. tt) name key conn _) λ is_suc m3 e3.
                Ensures-bind (end_order-Verdict is_suc conn m3 (ground arith)) λ _ m4 v.
                  Ensures-map ((autocommit-IsQuiet sv conn true).apply m4)
                    λ _ m5 e5. Verdict-between (e3 ∙ e2 ∙ e1) e5 v)
              (Ensures-bind (set_result-books _ m2) λ _ m3 e3.
                Ensures-map ((autocommit-IsQuiet sv conn true).apply m3)
                  λ _ m4 e4. refused (e4 ∙ e3 ∙ ap (answered (codes "0")) (e2 ∙ e1)))
