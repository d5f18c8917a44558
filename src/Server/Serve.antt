-- ===== src/Server/Serve.antt =====
-- GRPC/src/seckill_server.cc: `HandleRPCS`, the set-up of `Run`, and `main`.
use docker_compose_seckill_s.Base.{
  ℕ, zero, suc, ◌+◌, ◌%◌, ◌^◌, Bool, true, false, [], ◌∷◌, Option, none, some, Bytes, codes,
  if◌then◌else◌, ltb, leb,
}
use docker_compose_seckill_s.Services.{
  Services, Reply, ReplyType, reply_integer, Request, Event, Target,
}
use docker_compose_seckill_s.Machine.{
  Worker, M, pure, raise, modify, ◌>>=◌, ◌>>◌, aborted, done, gets,
}
use docker_compose_seckill_s.Machine.Calls.{command, free_reply, redis_connect, redis_close}
use docker_compose_seckill_s.MysqlPool
use docker_compose_seckill_s.RedisPool
use docker_compose_seckill_s.Worker.Proceed.{update, new_worker, proceed}
use docker_compose_seckill_s.Server.Prepare.{prepare_for_seckill}

-- The number of items on sale, as `HandleRPCS` has it.
abbrev pub on_sale : ℕ
on_sale = 50

abbrev is_integer : ReplyType → Bool
is_integer reply_integer = true
is_integer _ = false

-- The constants of the server.
abbrev pub mysql_target : Target
mysql_target = record {
  host = codes "mymysql";
  user = codes "tinykpwang";
  password = codes "14225117sa";
  database = codes "seckill";
  port = 3306;
}

module _ (sv : Services) (fuel : ℕ) where
  -- Whether the requests that are being worked on may take all that is left.
  -- `workingNum >= 50 - sucNum_`, where the reply's `long long` is narrowed to an `int`: the lower
  -- 32 digits, which stand for a negative number from 2^31 on.
  unfoldable pub outnumbers : ℕ → ℕ → Bool
  outnumbers integer success_num =
      let low = integer % 2 ^ 32 in
      if ltb low (2 ^ 31)
      then leb on_sale (low + success_num)
      else leb (on_sale + 2 ^ 32) (low + success_num)

  unfoldable pub crowded : Option Reply → M sv Bool
  crowded none = pure false
  crowded (some r) =
      if is_integer r.type
      then (do
        free_reply sv (some r)
        success_num ← gets (λ m. m.success_num)
        pure (outnumbers r.integer success_num))
      else pure false

  unfoldable pub check_gate : M sv Bool
  check_gate = do
    redisconn ← redis_connect sv
    reply ← command sv redisconn (codes "llen %s") (codes "work_list" ∷ [])
    full ← crowded reply
    redis_close sv redisconn
    pure full

  -- `if (sucNum_ < 50) …`: `true` stands for `continue`.
  unfoldable pub gate_closed : M sv Bool
  gate_closed = do
    success_num ← gets (λ m. m.success_num)
    if ltb success_num on_sale then check_gate else pure false

  -- The completion queue writes the request that arrived into the worker that waited for it.
  unfoldable pub deliver : ℕ → Request → Worker → M sv (Unit {0})
  deliver tag request w =
      modify
        λ m. record m { workers = update m.workers tag (some (record w { request = request })) }

  unfoldable pub receive : ℕ → Option Request → Option Worker → M sv (Unit {0})
  receive tag (some request) (some w) = deliver tag request w
  receive tag _ _ = pure tt

  unfoldable pub cq_next : M sv (Option Event)
  cq_next m = let (event, w) = sv.cq_next m.world in done event (record m { world = w })

  -- Both assertions, and the call of `Proceed`.
  unfoldable pub dispatch : Option Event → M sv (Unit {0})
  dispatch none = raise aborted
  dispatch (some event) =
      if event.ok
      then (do
        w ← gets (λ m. m.workers event.tag)
        receive event.tag event.arrived w
        proceed sv fuel event.tag)
      else raise aborted

  -- One round of the loop.
  unfoldable pub handle_rpc : M sv (Unit {0})
  handle_rpc = do closed ← gate_closed; if closed then pure tt else (cq_next >>= dispatch)

  -- The loop has no end: the first argument says how many rounds are watched.
  unfoldable pub handle_rpcs : ℕ → M sv (Unit {0})
  handle_rpcs zero = pure tt
  handle_rpcs (suc rounds) = handle_rpc >> handle_rpcs rounds

  -- `failedCounter`, the lock and `sucNum_`.
  unfoldable pub init_counters : M sv (Unit {0})
  init_counters = modify λ m. record m { failed_count = 0; success_num = 0; write_locked = false }

  -- What `Run` does before it starts the threads.
  unfoldable pub run_start : M sv (Unit {0})
  run_start = do init_counters; new_worker sv fuel

  unfoldable pub run : ℕ → M sv (Unit {0})
  run rounds = run_start >> handle_rpcs rounds

  unfoldable pub main : Bytes → ℕ → M sv (Unit {0})
  main junk rounds = do
    modify λ m. record m { mysql = MysqlPool.set_parameter mysql_target 30 m.mysql }
    modify λ m. record m { redis = RedisPool.set_parameter (codes "myredis") 6379 500 m.redis }
    prepare_for_seckill sv fuel junk
    run rounds
