-- ===== src/RedisPool/Limit.antt =====
-- GRPC/src/redispool.cc: `connect_count` and the limit `MAX_CONNECT`, which it never reaches.
use docker_compose_seckill_s.Base.{
  ℕ, zero, suc, ◌+◌, ◌-◌, ◌%◌, ◌^◌, ◌<◌, ◌≡◌, refl, List, [], ◌∷◌, ◌++◌, Option, none, some, Bytes,
  false, arith, length,
}
use docker_compose_seckill_s.Services.{Services}
use docker_compose_seckill_s.RedisPool.{
  RedisPool, decrement, create_one_connect, without_error, connect_below_limit, take_front,
  get_one_connect, close_all, destroy, close,
}

-- What a caller that keeps every connection does: each call adds to what it holds.
abbrev pub keep : Option ℕ → List ℕ → List ℕ
keep none held = held
keep (some c) held = c ∷ held

module _ (sv : Services) where
  open sv use {World, redis_connect}

  -- `n` calls of `getOneConnect` by callers that keep what they get.
  pub get_many : ℕ → List ℕ → RedisPool → World → List ℕ × RedisPool × World
  get_many zero held p w = (held, p, w)
  get_many (suc n) held p w =
      let (conn, p', w') = get_one_connect sv p w in get_many n (keep conn held) p' w'

  -- The Redis server accepts every connection.
  abbrev pub Accepts : Bytes → ℕ → Type 0
  Accepts host port = (w : World) → (c : ℕ) × ((redis_connect host port w).0 ≡ some (c, false))

  get_one_connect-eq :
      (p : RedisPool) (w : World)
      → Accepts p.host p.port
      → p.redispool ≡ []
      → p.connect_count < p.max_connect
      → (c : ℕ) × (w' : World) × (get_one_connect sv p w ≡ (some c, p, w'))
  unfolding get_one_connect take_front connect_below_limit create_one_connect without_error
  get_one_connect-eq p w accepts e room =
      ((accepts w).0, (redis_connect p.host p.port w).1, ground (arith, (accepts w).1))

  -- The limit does not limit: as long as the server accepts, `n` calls on a pool with nothing
  -- idle and its count below the limit open `n` connections, for every `n`, and leave the
  -- count as it was.
  pub get_many_unlimited :
      (n : ℕ) (held : List ℕ) (p : RedisPool) (w : World)
      → Accepts p.host p.port
      → p.redispool ≡ []
      → p.connect_count < p.max_connect
      → let (held', p', w') = get_many n held p w in
        (length held' ≡ n + length held) × (p'.connect_count ≡ p.connect_count)
  unfolding get_many
  get_many_unlimited zero held p w accepts e room = (omega arith, refl)
  get_many_unlimited (suc n) held p w accepts e room =
      let (c, w', got) = get_one_connect-eq p w accepts e room in
      let (more, same) = get_many_unlimited n (c ∷ held) p w' accepts e room in
      ground (arith, got, more, same)

  pub get_one_connect-front :
      (c : ℕ) (q : List ℕ) (p : RedisPool) (w : World)
      → p.redispool ≡ c ∷ q
      → get_one_connect sv p w ≡ (some c, record p { redispool = q }, w)
  unfolding get_one_connect take_front
  get_one_connect-front c q p w e = rw e refl

  -- `getOneConnect` leaves the count alone, whether it reuses, connects, fails or refuses.
  pub connect_count-get_one_connect :
      (p : RedisPool) (w : World) → (get_one_connect sv p w).1.connect_count ≡ p.connect_count
  unfolding get_one_connect take_front connect_below_limit create_one_connect without_error
  connect_count-get_one_connect p w = by_queue p.redispool
    where
      by_queue : (q : List ℕ) → (take_front sv q p w).1.connect_count ≡ p.connect_count
      by_queue [] = ground arith
      by_queue (c ∷ q) = refl

  close_all-count :
      (q : List ℕ) (count : ℕ) (w : World)
      → count < 2 ^ 32
      → length q < 2 ^ 32
      → (close_all sv q count w).0 ≡ (count + (2 ^ 32 - length q)) % 2 ^ 32
  unfolding close_all
  close_all-count [] count w h l = omega arith
  close_all-count (c ∷ q) count w h l =
      omega (arith, close_all-count q (decrement count) (sv.redis_free c w))

  -- The destructor counts down from a count that was never counted up: with `k` idle
  -- connections the unsigned counter ends at 2^32 - k.
  pub destroy_wraps :
      (p : RedisPool) (w : World)
      → p.connect_count ≡ 0
      → 0 < length p.redispool
      → length p.redispool < 2 ^ 32
      → ((destroy sv p w).0.connect_count ≡ 2 ^ 32 - length p.redispool)
        × ((destroy sv p w).0.redispool ≡ [])
  unfolding destroy
  destroy_wraps p w e some_idle l =
      (omega (arith, close_all-count p.redispool p.connect_count w), refl)

pub redispool-close :
    (conn : ℕ) (p : RedisPool) → (close (some conn) p).redispool ≡ p.redispool ++ conn ∷ []
unfolding close
redispool-close conn p = refl
