-- ===== src/Tests/Pools.antt =====
-- The theorems about the loops of the pools, at concrete inputs.
use docker_compose_seckill_s.Base.{
  ◌+◌, ◌-◌, ◌^◌, ◌≤◌, ◌≡◌, refl, [], ◌∷◌, some, codes, length, arith,
}
use docker_compose_seckill_s.MysqlPool.Queue as MysqlQueue
use docker_compose_seckill_s.RedisPool.Queue as RedisQueue
use docker_compose_seckill_s.Tests.Fake.{servers}
use docker_compose_seckill_s.Tests.Examples.{mysql_pool, redis_pool, two_left, opening}
use docker_compose_seckill_s.Machine.Quiet.{Ensures}
use docker_compose_seckill_s.Server.Serve.{main}
use docker_compose_seckill_s.Server.Limit.{main-limit}

-- Connections above 8 are dead.
ping_loop_ends_example :
    MysqlQueue.ping_loop servers 4 (mysql_pool (9 ∷ 10 ∷ 4 ∷ [])) two_left
    ≡ some (record (mysql_pool (4 ∷ [])) { connect_count = 1 }, two_left)
ping_loop_ends_example =
    MysqlQueue.ping_loop_ends servers 4 (9 ∷ 10 ∷ []) (4 ∷ []) (mysql_pool (9 ∷ 10 ∷ 4 ∷ []))
      two_left two_left two_left (omega arith) refl (refl, (refl, refl)) (refl, refl) (omega arith)
      (omega arith)

destroy_loop_ends_example :
    RedisQueue.destroy_loop servers 3 redis_pool two_left
    ≡ some (
      record redis_pool { redispool = []; connect_count = 2 ^ 32 - 2 },
      RedisQueue.free_all servers (1 ∷ 2 ∷ []) two_left,
    )
destroy_loop_ends_example =
    RedisQueue.destroy_loop_ends servers 3 redis_pool two_left (omega arith) (omega arith)
      (omega arith)

main-limit_example :
    Ensures
      (main servers 9 (codes "junk") 3)
      (record opening { mysql = mysql_pool [] })
      (λ _ m'.
        (m'.mysql.connect_count ≤ 30)
        × (length m'.mysql.mysqlpool ≤ m'.mysql.connect_count)
        × (m'.mysql.connect_count ≤ length m'.mysql.mysqlpool + 1))
main-limit_example =
    main-limit servers 9 (codes "junk") 3 (record opening { mysql = mysql_pool [] }) refl
