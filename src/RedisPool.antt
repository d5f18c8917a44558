-- ===== src/RedisPool.antt =====
-- GRPC/src/redispool.cc and redispool.h: the pool of Redis connections, shaped like the pool of
-- MySQL connections. `poollock` makes each public method one step.
pub mod Limit
pub mod Singleton
pub mod Apart
pub mod Queue
use docker_compose_seckill_s.Base.{
  ℕ, ◌+◌, ◌-◌, ◌%◌, ◌^◌, ◌∷◌, [], ◌++◌, List, Option, none, some, Bool, ltb, if◌then◌else◌, Bytes,
}
use docker_compose_seckill_s.Services.{Services}

abbrev pub uint_mod : ℕ
uint_mod = 2 ^ 32

abbrev pub decrement : ℕ → ℕ
decrement c = (c + (uint_mod - 1)) % uint_mod

pub record RedisPool : Type 0 where
  pub host : Bytes
  pub port : ℕ
  pub max_connect : ℕ
  pub connect_count : ℕ
  pub redispool : List ℕ

pub set_parameter : Bytes → ℕ → ℕ → RedisPool → RedisPool
set_parameter host port max_connect p = record p {
  host = host;
  port = port;
  max_connect = max_connect;
  connect_count = 0;
}

module _ (sv : Services) where
  open sv use {World, redis_connect, redis_free}

  -- A context whose `err` is set is dropped; `redisConnect` may also return NULL.
  unfoldable pub without_error : Option (ℕ × Bool) → Option ℕ
  without_error none = none
  without_error (some (conn, err)) = if err then none else some conn

  -- The count of connections is not touched.
  unfoldable pub create_one_connect : RedisPool → World → Option ℕ × RedisPool × World
  unfolding without_error
  create_one_connect p w =
      let (conn, w') = redis_connect p.host p.port w in (without_error conn, p, w')

  unfoldable pub connect_below_limit : RedisPool → World → Option ℕ × RedisPool × World
  connect_below_limit p w =
      if ltb p.connect_count p.max_connect then create_one_connect p w else (none, p, w)

  -- The inner test of `isEmpty` repeats the outer one, under the same lock.
  unfoldable pub take_front : List ℕ → RedisPool → World → Option ℕ × RedisPool × World
  unfolding connect_below_limit
  take_front [] p w = connect_below_limit p w
  take_front (c ∷ q) p w = (some c, record p { redispool = q }, w)

  unfoldable pub get_one_connect : RedisPool → World → Option ℕ × RedisPool × World
  unfolding take_front
  get_one_connect p w = take_front p.redispool p w

  -- The loop of the destructor.
  close_all : List ℕ → ℕ → World → ℕ × World
  close_all [] count w = (count, w)
  close_all (c ∷ q) count w = close_all q (decrement count) (redis_free c w)

  pub destroy : RedisPool → World → RedisPool × World
  unfolding close_all
  destroy p w =
      let (count, w') = close_all p.redispool p.connect_count w in
      (record p { redispool = []; connect_count = count }, w')

-- `close`: NULL is ignored.
pub close : Option ℕ → RedisPool → RedisPool
close none p = p
close (some conn) p = record p { redispool = p.redispool ++ conn ∷ [] }
