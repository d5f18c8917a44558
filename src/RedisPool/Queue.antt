-- ===== src/RedisPool/Queue.antt =====
-- GRPC/src/redispool.cc: `isEmpty`, `poolFront`, `poolSize`, `poolPop`, and `getOneConnect` and the
-- loop of the destructor as they are written with them.
use docker_compose_seckill_s.Base.{
  ℕ, zero, suc, ◌%◌, ◌+◌, ◌-◌, ◌*◌, ap, ◌∙◌, ◌<◌, ◌≡◌, refl, List, [], ◌∷◌, Option, none, some,
  length, front, popped, suc_in_word, Bool, true, false, if◌then◌else◌, ◌==◌, arith,
}
use docker_compose_seckill_s.Services.{Services}
use docker_compose_seckill_s.RedisPool.{
  RedisPool, uint_mod, decrement, connect_below_limit, take_front, get_one_connect,
}

abbrev no_entry : List ℕ → Bool
no_entry [] = true
no_entry (c ∷ q) = false

pub is_empty : RedisPool → Bool
is_empty p = no_entry p.redispool

-- The front of an empty queue is undefined: `none`.
pub pool_front : RedisPool → Option ℕ
pool_front p = front p.redispool

pub pool_pop : RedisPool → RedisPool
pool_pop p = record p { redispool = popped p.redispool }

-- `unsigned int`.
pub pool_size : RedisPool → ℕ
pool_size p = length p.redispool % uint_mod

module _ (sv : Services) where
  -- `getOneConnect` with both of its tests.
  pub take_or_create : RedisPool → sv.World → Option ℕ × RedisPool × sv.World
  unfolding is_empty
  take_or_create p w =
      if is_empty p
      then connect_below_limit sv p w
      else if is_empty p
      then connect_below_limit sv p w
      else (pool_front p, pool_pop p, w)

  take_or_create-queue :
      (q : List ℕ) (p : RedisPool) (w : sv.World)
      → take_or_create (record p { redispool = q }) w
        ≡ get_one_connect sv (record p { redispool = q }) w
  unfolding take_or_create get_one_connect take_front pool_front pool_pop
  take_or_create-queue [] p w = refl
  take_or_create-queue (c ∷ q) p w = refl

  -- The inner test of `isEmpty` never sees an empty queue: `getOneConnect` is the front of the
  -- queue or else a new connection below the limit.
  pub take_or_create-get_one_connect :
      (p : RedisPool) (w : sv.World) → take_or_create p w ≡ get_one_connect sv p w
  take_or_create-get_one_connect p w = take_or_create-queue p.redispool p w

  -- `while (poolSize() != 0)`; the first argument bounds the tests.
  pub destroy_loop : ℕ → RedisPool → sv.World → Option (RedisPool × sv.World)
  unfolding pool_front pool_size
  destroy_loop zero p w = none
  destroy_loop (suc n) p w = if pool_size p == 0 then some (p, w) else elim (pool_front p) [
    | none ↦ none
    | some c ↦
        destroy_loop n
          (record p { redispool = popped p.redispool; connect_count = decrement p.connect_count })
          (sv.redis_free c w)
  ]

  -- The reference: every connection is freed, front to back.
  pub free_all : List ℕ → sv.World → sv.World
  free_all [] w = w
  free_all (c ∷ q) w = free_all q (sv.redis_free c w)

  destroy_loop-queue :
      (n : ℕ) (q : List ℕ) (p : RedisPool) (w : sv.World)
      → length q < n
      → length q < uint_mod
      → p.connect_count < uint_mod
      → destroy_loop n (record p { redispool = q }) w
        ≡ some (
          record p {
            redispool = [];
            connect_count = (p.connect_count + (uint_mod - 1) * length q) % uint_mod;
          },
          free_all q w,
        )
  unfolding destroy_loop free_all
  destroy_loop-queue zero q p w h few small = absurd (omega arith)
  destroy_loop-queue (suc n) [] p w h few small =
      ap (λ k. some (record p { redispool = []; connect_count = k }, w)) (omega (arith, small))
  destroy_loop-queue (suc n) (c ∷ q) p w h few small = rw (suc_in_word (length q) few) (
      destroy_loop-queue n q (record p { connect_count = decrement p.connect_count }) _
        (omega (arith, h)) (omega (arith, few)) (omega arith)
      ∙ ap
          (λ k.
            some (record p { redispool = []; connect_count = k }, free_all q (sv.redis_free c w)))
          (omega arith))

  -- For fewer than 2^32 idle connections and a count that an `unsigned int` holds, the loop of the
  -- destructor ends after one test more than there are connections. All of them are freed, front
  -- to back, and each is taken off the count, modulo 2^32.
  pub destroy_loop_ends :
      (n : ℕ) (p : RedisPool) (w : sv.World)
      → length p.redispool < n
      → length p.redispool < uint_mod
      → p.connect_count < uint_mod
      → destroy_loop n p w
        ≡ some (
          record p {
            redispool = [];
            connect_count = (p.connect_count + (uint_mod - 1) * length p.redispool) % uint_mod;
          },
          free_all p.redispool w,
        )
  destroy_loop_ends n p w h few small = destroy_loop-queue n p.redispool p w h few small
