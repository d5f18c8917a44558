-- ===== src/RedisPool/Apart.antt =====
-- GRPC/src/redispool.cc: what `getOneConnect` does to the world is what `redisConnect` does.
use docker_compose_seckill_s.Base.{ℕ, List, [], ◌∷◌, ◌≡◌, refl, Bool-cases, inl, inr, ltb, Bytes}
use docker_compose_seckill_s.Services.{Services}
use docker_compose_seckill_s.RedisPool.{
  RedisPool, create_one_connect, connect_below_limit, take_front, get_one_connect,
}

module _ (sv : Services) {X : Type 0} (f : sv.World → X)
    (apart : (host : Bytes) (port : ℕ) (w : sv.World)
      → f (sv.redis_connect host port w).1 ≡ f w) where
  take_front-keeps : (q : List ℕ) (p : RedisPool) (w : sv.World) → f (take_front sv q p w).2 ≡ f w
  unfolding take_front connect_below_limit create_one_connect
  take_front-keeps [] p w = elim (Bool-cases (ltb p.connect_count p.max_connect)) [
    | inl e ↦ rw e (apart p.host p.port w)
    | inr e ↦ rw e refl
  ]
  take_front-keeps (c ∷ q) p w = refl

  pub get_one_connect-keeps : (p : RedisPool) (w : sv.World) → f (get_one_connect sv p w).2 ≡ f w
  unfolding get_one_connect
  get_one_connect-keeps p w = take_front-keeps p.redispool p w
