-- ===== src/Worker/Lends.antt =====
-- GRPC/src/Worker.cc: no way of answering a request touches the pool of MySQL connections.
pub mod Process
use docker_compose_seckill_s.Base.{
  arith, ℕ, ◌≡◌, refl, Bool, true, false, Bytes, Option, none, some, int_max, ltb,
}
use docker_compose_seckill_s.Services.{Services}
use docker_compose_seckill_s.Machine.Calls.{
  autocommit, commit, rollback, count_success, redis_connect, redis_close,
}
use docker_compose_seckill_s.Machine.Quiet.{
  Frame, Keeps, Keeps-bind, Keeps-pure, Keeps-if, sprintf_200-Keeps, query-Keeps, use_result-Keeps,
}
use docker_compose_seckill_s.MysqlPool
use docker_compose_seckill_s.MysqlPool.{MysqlPool}
use docker_compose_seckill_s.Worker.Check.{check_user_has_got_mysql}
use docker_compose_seckill_s.Worker.Order.{end_order, seckill_goods_mysql}
use docker_compose_seckill_s.Worker.Proceed.{answer}
use docker_compose_seckill_s.Worker.Keep.{read_stock-Keeps, write_order-Keeps, read_orders-Keeps}
use docker_compose_seckill_s.Worker.Ending.{Ending, answer-Answers, seckill_goods-Answers}
use docker_compose_seckill_s.Worker.Goods.{seckill_goods, retry_count}
use docker_compose_seckill_s.Worker.Local.{
  IsLocal, Holds-if, set_result-Keeps, write_lock-Keeps, unlock-Keeps, count_failure-Keeps,
  restock-Keeps,
}

module _ (sv : Services) where
  -- The pool of MySQL connections.
  abbrev pub pool_frame : Frame sv
  pool_frame = record {
    Seen = MysqlPool;
    see = λ m. m.mysql;
    Plain = λ conn t. Unit {0};
    after_command = λ conn format args n m. refl;
    after_free_reply = λ n m. refl;
    after_query = λ conn t m plain. refl;
    after_use_result = λ conn m. refl;
    after_fetch_row = λ res m. refl;
    after_free_result = λ res m. refl;
  }

  pool_local : IsLocal pool_frame
  pool_local = record { after = λ failed locked workers self m. refl }

  autocommit-Keeps : (conn : Option ℕ) (on : Bool) → Keeps pool_frame (autocommit sv conn on)
  unfolding autocommit
  autocommit-Keeps none on = record { apply = λ m. record { apply = refl } }
  autocommit-Keeps (some conn) on = record { apply = λ m. record { apply = refl } }

  commit-Keeps : (conn : Option ℕ) → Keeps pool_frame (commit sv conn)
  unfolding commit
  commit-Keeps none = record { apply = λ m. record { apply = refl } }
  commit-Keeps (some conn) = record { apply = λ m. record { apply = refl } }

  rollback-Keeps : (conn : Option ℕ) → Keeps pool_frame (rollback sv conn)
  unfolding rollback
  rollback-Keeps none = record { apply = λ m. record { apply = refl } }
  rollback-Keeps (some conn) = record { apply = λ m. record { apply = refl } }

  count_success-Keeps : Keeps pool_frame (count_success sv)
  unfolding count_success
  count_success-Keeps = record {
    apply = λ m. record { apply = Holds-if _ (ltb m.success_num int_max) _ _ refl refl };
  }

  pub redis_connect-Keeps : Keeps pool_frame (redis_connect sv)
  unfolding redis_connect
  redis_connect-Keeps = record { apply = λ m. record { apply = refl } }

  pub redis_close-Keeps : (conn : Option ℕ) → Keeps pool_frame (redis_close sv conn)
  unfolding redis_close
  redis_close-Keeps conn = record { apply = λ m. record { apply = refl } }

  module _ (fuel : ℕ) where
    end_order-Keeps : (ok : Bool) (conn : Option ℕ) → Keeps pool_frame (end_order sv fuel conn ok)
    unfolding end_order
    end_order-Keeps false conn = Keeps-bind (rollback-Keeps conn) λ _.
        Keeps-bind (write_lock-Keeps sv pool_local) λ _.
          Keeps-bind (count_failure-Keeps sv pool_local)
            λ _. Keeps-bind (unlock-Keeps sv pool_local) λ _. set_result-Keeps sv pool_local _
    end_order-Keeps true conn =
        Keeps-bind (commit-Keeps conn)
          λ _. Keeps-bind (set_result-Keeps sv pool_local _) λ _. count_success-Keeps

    seckill_goods_mysql-Keeps :
        (name key : Bytes) (conn : Option ℕ)
        → Keeps pool_frame (seckill_goods_mysql sv fuel name key conn)
    unfolding seckill_goods_mysql
    seckill_goods_mysql-Keeps name key conn = Keeps-bind (autocommit-Keeps conn false) λ _.
        Keeps-bind (read_stock-Keeps sv fuel (λ _ _ _. tt) conn) λ n.
          Keeps-if _
            (Keeps-bind (write_order-Keeps sv fuel (λ _ _. tt) name key conn _)
              λ ok. Keeps-bind (end_order-Keeps ok conn) λ _. autocommit-Keeps conn true)
            (Keeps-bind (set_result-Keeps sv pool_local _) λ _. autocommit-Keeps conn true)

    looks :
        (name key : Bytes) (conn : Option ℕ)
        → Keeps pool_frame (check_user_has_got_mysql sv fuel name key conn)
    unfolding check_user_has_got_mysql
    looks name key conn = Keeps-bind (autocommit-Keeps conn false) λ _.
        Keeps-bind (sprintf_200-Keeps sv _) λ sql.
          Keeps-bind (query-Keeps sv conn sql λ _. tt) λ failed.
            Keeps-bind
              (Keeps-if failed (Keeps-pure _)
                (Keeps-bind (use_result-Keeps sv conn) λ res. read_orders-Keeps sv fuel res))
              λ got. Keeps-bind (autocommit-Keeps conn true) λ _. Keeps-pure _

    -- No way of answering touches the pool.
    abbrev lends : Ending sv fuel
    lends = record {
      frame = pool_frame;
      Ready = λ p. Unit {0};
      Ends = λ p p'. p' ≡ p;
      plain = λ c t select. tt;
      refuses = λ m ready. (set_result-Keeps sv pool_local _).apply m;
      restocks = λ conn m ready.
          (Keeps-bind (restock-Keeps sv pool_local fuel conn)
              λ _. set_result-Keeps sv pool_local _).apply
            m;
      orders = λ name key conn m ready. (seckill_goods_mysql-Keeps name key conn).apply m;
      looks = looks;
    }

    pub seckill_goods-Keeps :
        (name key : Bytes) (redis mysql : Option ℕ)
        → Keeps pool_frame (seckill_goods sv fuel retry_count name key redis mysql 0)
    seckill_goods-Keeps name key redis mysql = record {
      apply = λ m.
          (seckill_goods-Answers lends retry_count name key redis mysql 0 (omega arith)
              (omega arith)).apply
            m tt;
    }

    pub answer-Keeps :
        (name key : Bytes) (redis mysql : Option ℕ)
        → Keeps pool_frame (answer sv fuel name key redis mysql)
    answer-Keeps name key redis mysql = record {
      apply = λ m. (answer-Answers lends name key redis mysql).apply m tt;
    }
