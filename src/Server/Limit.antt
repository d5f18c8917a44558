-- ===== src/Server/Limit.antt =====
-- GRPC/src/seckill_server.cc and GRPC/src/mysqlpool.cc: the server against the limit of the pool
-- of MySQL connections.
use docker_compose_seckill_s.Base.{
  ℕ, zero, suc, ◌+◌, ◌≤◌, ◌≡◌, refl, sym, ap, subst, ◌∙◌, [], Bytes, Option, none, some, arith,
  length, codes,
}
use docker_compose_seckill_s.Services.{Services, Request, Event}
use docker_compose_seckill_s.Machine.{Machine, Worker, modify}
use docker_compose_seckill_s.Machine.Quiet.{
  Keeps, Keeps-bind, Keeps-pure, Ensures, Ensures-bind, Ensures-if, Ensures-map,
}
use docker_compose_seckill_s.MysqlPool.{MysqlPool, set_parameter}
use docker_compose_seckill_s.RedisPool
use docker_compose_seckill_s.Worker.Lends.{pool_frame, redis_connect-Keeps, redis_close-Keeps}
use docker_compose_seckill_s.Worker.Lends.Process.{
  Borrows, untouched, Borrows-within, Borrows-Within, Within, pool_then, new_worker-Keeps,
  proceed-Borrows,
}
use docker_compose_seckill_s.Server.Keep.{gate_closed_by-Keeps}
use docker_compose_seckill_s.Server.Lends.{LosesOne, prepare_for_seckill-LosesOne}
use docker_compose_seckill_s.Server.Serve.{
  gate_closed, deliver, receive, cq_next, dispatch, handle_rpc, handle_rpcs, init_counters,
  run_start, run, main, mysql_target,
}

module _ (sv : Services) (fuel : ℕ) where
  gate_closed-Keeps : Keeps (pool_frame sv) (gate_closed sv fuel)
  gate_closed-Keeps = gate_closed_by-Keeps sv fuel (redis_connect-Keeps sv) (redis_close-Keeps sv)

  cq_next-Keeps : Keeps (pool_frame sv) (cq_next sv fuel)
  unfolding cq_next
  cq_next-Keeps = record { apply = λ m. record { apply = refl } }

  receive-Keeps :
      (tag : ℕ) (r : Option Request) (o : Option Worker)
      → Keeps (pool_frame sv) (receive sv fuel tag r o)
  unfolding receive deliver
  receive-Keeps tag (some request) (some w) = record { apply = λ m. record { apply = refl } }
  receive-Keeps tag none o = Keeps-pure _
  receive-Keeps tag (some request) none = Keeps-pure _

  dispatch-Borrows :
      (event : Option Event) (m : Machine sv)
      → Ensures (dispatch sv fuel event) m (λ _ m'. Borrows sv m.mysql m'.mysql)
  unfolding dispatch
  dispatch-Borrows none m = record { apply = refl }
  dispatch-Borrows (some event) m =
      Ensures-if event.ok
        (record {
          apply =
              (pool_then sv fuel (receive-Keeps event.tag event.arrived (m.workers event.tag))
                λ _ m1 e1.
                  Ensures-map (proceed-Borrows sv fuel event.tag m1)
                    λ _ m2 b. Borrows-within e1 refl b).apply;
        })
        (record { apply = refl })

  handle_rpc-Borrows :
      (m : Machine sv) → Ensures (handle_rpc sv fuel) m (λ _ m'. Borrows sv m.mysql m'.mysql)
  unfolding handle_rpc
  handle_rpc-Borrows m = pool_then sv fuel gate_closed-Keeps λ closed m1 e1.
      Ensures-if closed (record { apply = untouched e1 })
        (pool_then sv fuel cq_next-Keeps λ event m2 e2.
          Ensures-map (dispatch-Borrows event m2) λ _ m3 b. Borrows-within (e2 ∙ e1) refl b)

  handle_rpcs-Within :
      (rounds limit lent : ℕ) (m : Machine sv)
      → Within limit lent m.mysql
      → Ensures (handle_rpcs sv fuel rounds) m (λ _ m'. Within limit lent m'.mysql)
  unfolding handle_rpcs
  handle_rpcs-Within zero limit lent m v = record { apply = v }
  handle_rpcs-Within (suc rounds) limit lent m v =
      Ensures-bind (handle_rpc-Borrows m)
        λ _ m1 b. handle_rpcs-Within rounds limit lent m1 (Borrows-Within limit lent b v)

  init_counters-Keeps : Keeps (pool_frame sv) (init_counters sv fuel)
  unfolding init_counters
  init_counters-Keeps = record { apply = λ m. record { apply = refl } }

  run_start-Keeps : Keeps (pool_frame sv) (run_start sv fuel)
  unfolding run_start
  run_start-Keeps = Keeps-bind init_counters-Keeps λ _. new_worker-Keeps sv fuel

  run-LosesOne :
      (rounds limit : ℕ) (m : Machine sv)
      → LosesOne limit m.mysql
      → Ensures (run sv fuel rounds) m (λ _ m'. LosesOne limit m'.mysql)
  unfolding run
  run-LosesOne rounds limit m (lent, few, v) = pool_then sv fuel run_start-Keeps λ _ m1 e1.
      Ensures-map (handle_rpcs-Within rounds limit lent m1 (subst (Within limit lent) (sym e1) v))
        λ _ m2 u. (lent, few, u)

  set_up :
      (m : Machine sv)
      → m.mysql.mysqlpool ≡ []
      → Ensures
          (modify λ m. record m { mysql = set_parameter mysql_target 30 m.mysql })
          m
          (λ _ m'. Within 30 0 m'.mysql)
  unfolding set_parameter
  set_up m e = record {
    apply = (
      record { counted = omega (arith, ap length e); limited = omega arith; fits = omega arith },
      refl,
    );
  }

  set_redis-Keeps :
      Keeps (pool_frame sv) (
        modify λ m. record m { redis = RedisPool.set_parameter (codes "myredis") 6379 500 m.redis })
  set_redis-Keeps = record { apply = λ m. record { apply = refl } }

  limit_of :
      {p : MysqlPool}
      → LosesOne 30 p
      → (p.connect_count ≤ 30)
        × (length p.mysqlpool ≤ p.connect_count)
        × (p.connect_count ≤ length p.mysqlpool + 1)
  limit_of (lent, few, (v, limit)) =
      (omega (arith, v.limited, limit), omega (arith, v.counted), omega (arith, v.counted, few))

  -- In a program that starts with an empty pool, whatever the servers and the completion queue
  -- answer: if `main` comes through `prepareForSeckill` and the given number of rounds of the
  -- loop, then `connect_count` is at most 30 and at most one more than the number of idle
  -- connections, and no less than it.
  pub main-limit :
      (junk : Bytes) (rounds : ℕ) (m : Machine sv)
      → m.mysql.mysqlpool ≡ []
      → Ensures (main sv fuel junk rounds) m (λ _ m'.
        (m'.mysql.connect_count ≤ 30)
        × (length m'.mysql.mysqlpool ≤ m'.mysql.connect_count)
        × (m'.mysql.connect_count ≤ length m'.mysql.mysqlpool + 1))
  unfolding main
  main-limit junk rounds m e = Ensures-bind (set_up m e) λ _ m1 v.
      pool_then sv fuel set_redis-Keeps λ _ m2 e2.
        Ensures-bind
          (prepare_for_seckill-LosesOne sv fuel junk 30 m2 (subst (Within 30 0) (sym e2) v))
          λ _ m3 few. Ensures-map (run-LosesOne rounds 30 m3 few) λ _ m4 p. (limit_of p)
