-- ===== src/Worker/Proceed.antt =====
-- GRPC/src/Worker.cc: the constructor of `Worker` and `Proceed`, its state machine.
use docker_compose_seckill_s.Base.{
  ℕ, ◌+◌, [], ◌∷◌, Option, none, some, Bytes, codes, if◌then◌else◌, ◌==◌,
}
use docker_compose_seckill_s.Services.{Services}
use docker_compose_seckill_s.Machine.{
  Machine, Worker, WorkerStatus, create, process, finish, M, raise, gets, modify, ◌>>=◌, ◌>>◌,
  use_after_free,
}
use docker_compose_seckill_s.Machine.Calls.{
  command, set_result, redis_connect, mysql_connect, redis_close, mysql_close,
}
use docker_compose_seckill_s.Worker.Check.{check_user_info, check_user_has_got}
use docker_compose_seckill_s.Worker.Goods.{seckill_goods, retry_count}

abbrev pub update : (ℕ → Option Worker) → ℕ → Option Worker → ℕ → Option Worker
update workers i w j = if i == j then w else workers j

module _ (sv : Services) (fuel : ℕ) where
  -- The first branch of `Proceed`: the worker waits for a request, under its own address.
  unfoldable pub proceed_create : ℕ → Worker → Machine sv → Machine sv
  proceed_create this w m = record m {
    workers = update m.workers this (some (record w { status = process }));
    world = sv.request_seckill this m.world;
  }

  -- `new Worker(…)`: the constructor calls `Proceed` at once.
  unfoldable pub new_worker : M sv (Unit {0})
  new_worker = modify λ m.
      proceed_create m.next_worker
        (record { status = create; request = record { usrname = []; usrkey = [] }; response = [] })
        (record m { next_worker = m.next_worker + 1 })

  -- The two checks and the purchase.
  unfoldable pub answer : Bytes → Bytes → Option ℕ → Option ℕ → M sv (Unit {0})
  answer usr_name usr_key redisconn connection = do
    known ← check_user_info sv fuel usr_name usr_key redisconn connection
    if known
        then (do
          has_got ← check_user_has_got sv fuel usr_name usr_key redisconn connection
          if has_got
              then set_result sv (codes "0")
              else seckill_goods sv fuel retry_count usr_name usr_key redisconn connection 0)
        else set_result sv (codes "0")

  -- `status_ = FINISH`.
  unfoldable pub set_finish : M sv (Unit {0})
  set_finish = modify λ m. record m { self = record (m.self) { status = finish } }

  unfoldable pub proceed_process : ℕ → M sv (Unit {0})
  proceed_process this = do
    redisconn ← redis_connect sv
    mysqlconnection ← mysql_connect sv
    set_finish
    command sv redisconn (codes "LPUSH work_list %s") (codes "1" ∷ [])
    new_worker
    request ← gets (λ m. m.self.request)
    answer request.usrname request.usrkey redisconn mysqlconnection
    redis_close sv redisconn
    mysql_close sv mysqlconnection
    modify λ m. record m { world = sv.finish this m.self.response m.world }

  -- The last branch; `delete this` is the caller's.
  unfoldable pub proceed_finish : M sv (Unit {0})
  proceed_finish = do
    redisconn ← redis_connect sv
    command sv redisconn (codes "lpop %s") (codes "work_list" ∷ [])
    redis_close sv redisconn

  -- While a worker runs, its members are in `self`.
  unfoldable pub load_self : Worker → M sv (Unit {0})
  load_self w = modify λ m. record m { self = w }

  unfoldable pub save_self : ℕ → M sv (Unit {0})
  save_self this = modify λ m. record m { workers = update m.workers this (some m.self) }

  -- `delete this`.
  unfoldable pub delete_self : ℕ → M sv (Unit {0})
  delete_self this = modify λ m. record m { workers = update m.workers this none }

  unfoldable pub proceed_as : ℕ → Worker → WorkerStatus → M sv (Unit {0})
  proceed_as this w create = modify (proceed_create this w)
  proceed_as this w process = do load_self w; proceed_process this; save_self this
  proceed_as this w finish = do load_self w; proceed_finish; delete_self this

  unfoldable pub proceed_at : ℕ → Option Worker → M sv (Unit {0})
  proceed_at this none = raise use_after_free
  proceed_at this (some w) = proceed_as this w w.status

  unfoldable pub proceed : ℕ → M sv (Unit {0})
  proceed this m = proceed_at this (m.workers this) m
