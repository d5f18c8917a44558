-- ===== src/Worker/Stops.antt =====
-- GRPC/src/Worker.cc: where `Proceed` and the statements it sends do not do what they are for.
use docker_compose_seckill_s.Base.{
  ℕ, ◌≡◌, ◌≢◌, refl, ap, ◌∙◌, [], ◌∷◌, ◌++◌, none, some, Bytes, codes,
}
use docker_compose_seckill_s.Services.{Services}
use docker_compose_seckill_s.Machine.{Machine, Worker, process, done, fault, null_pointer}
use docker_compose_seckill_s.Machine.Calls.{command, redis_connect, mysql_connect}
use docker_compose_seckill_s.RedisPool
use docker_compose_seckill_s.Worker.Proceed.{
  proceed, proceed_at, proceed_as, load_self, proceed_process, set_finish, save_self,
}

module _ (sv : Services) (fuel this : ℕ) where
  proceed_process-null_redis :
      (m : Machine sv)
      → (RedisPool.get_one_connect sv m.redis m.world).0 ≡ none
      → proceed_process sv fuel this m ≡ fault null_pointer
  unfolding proceed_process redis_connect mysql_connect set_finish command
  proceed_process-null_redis m refused = rw refused refl

  -- A request for which the pool has no Redis connection is not answered from MySQL: `Proceed`
  -- sends LPUSH through the null pointer before anything is checked.
  pub proceed-null_redis :
      (m : Machine sv) (w : Worker)
      → m.workers this ≡ some w
      → w.status ≡ process
      → (RedisPool.get_one_connect sv m.redis m.world).0 ≡ none
      → proceed sv fuel this m ≡ fault null_pointer
  unfolding proceed proceed_at proceed_as load_self
  proceed-null_redis m w found e refused =
      ap (λ o. proceed_at sv fuel this o m) found
      ∙ ap (λ s. proceed_as sv fuel this w s m) e
      ∙ ap (λ o. elim o [ done a m' ↦ save_self sv fuel this m' | fault x ↦ fault x ])
          (proceed_process-null_redis (record m { self = w }) refused)

abbrev NoNul : Bytes → Type 0
NoNul [] = Unit {0}
NoNul (x ∷ xs) = (x ≢ 0) × NoNul xs

-- A row of the VALUES list of the INSERT.
abbrev pub order_row : Bytes → Bytes → Bytes
order_row name key = codes "('" ++ name ++ codes "','" ++ key ++ codes "','10')"
