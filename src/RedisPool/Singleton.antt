-- ===== src/RedisPool/Singleton.antt =====
-- GRPC/src/redispool.cc: `getRedisPoolObject`, whose text is that of `getMysqlPoolObject` with
-- its own pointer and lock.
use docker_compose_seckill_s.Base.{ℕ}
use docker_compose_seckill_s.MysqlPool.Singleton.{Shared, step}

-- The step of one thread, on the state of `redispool_object` and its `objectlock`.
abbrev pub get_redis_pool_object : ℕ → Shared → Shared
get_redis_pool_object t s = step t s
