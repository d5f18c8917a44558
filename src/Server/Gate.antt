-- ===== src/Server/Gate.antt =====
-- GRPC/src/seckill_server.cc: the gate of `HandleRPCS`, which holds threads back as long as the
-- requests that are being worked on could take all that is left.
use docker_compose_seckill_s.Base.{
  ℕ, zero, suc, ◌+◌, ◌-◌, ◌≤◌, ◌<◌, ◌^◌, ◌≡◌, refl, sym, ap, subst, true, List, [], ◌∷◌, ◌++◌, some,
  codes, lt→ltb, arith,
}
use docker_compose_seckill_s.Services.{Services, Reply, reply_integer}
use docker_compose_seckill_s.Machine.{Machine, done, pure, ◌>>◌}
use docker_compose_seckill_s.Machine.Calls.{command, free_reply, redis_connect, redis_close}
use docker_compose_seckill_s.Machine.Quiet.{Books, books}
use docker_compose_seckill_s.Machine.Returns.{Returns, Returns-bind, Returns-if, Returns-step}
use docker_compose_seckill_s.RedisPool.Limit.{get_one_connect-front, redispool-close}
use docker_compose_seckill_s.Server.Serve.{
  on_sale, outnumbers, crowded, check_gate, gate_closed, handle_rpc, handle_rpcs,
}

module _ (sv : Services) where
  open sv use {World, redis_command}

  -- In every world with the property `Here`, Redis says that `work_list` has at least `least`
  -- entries, and less than 2^31, and saying so leads to another such world.
  pub record StaysBusy (least : ℕ) (Here : World → Type 0) : Type 0 where
    pub reply : ℕ → World → Reply
    pub answers :
        (conn : ℕ) (w : World)
        → Here w
        → (redis_command conn (codes "llen %s") (codes "work_list" ∷ []) w).0 ≡ some (reply conn w)
    pub counts : (conn : ℕ) (w : World) → Here w → (reply conn w).type ≡ reply_integer
    pub many : (conn : ℕ) (w : World) → Here w → least ≤ (reply conn w).integer
    -- The count fits an `int`.
    pub fits : (conn : ℕ) (w : World) → Here w → (reply conn w).integer < 2 ^ 31
    pub stays :
        (conn : ℕ) (w : World)
        → Here w
        → Here (redis_command conn (codes "llen %s") (codes "work_list" ∷ []) w).1

  module _ (fuel least : ℕ) (Here : World → Type 0) (busy : StaysBusy least Here) where
    -- The world is still such a one, what the workers share is as in `b`, and a connection to
    -- Redis is idle.
    pub record Waits (b : Books) (m : Machine sv) : Type 0 where
      pub here : Here m.world
      pub same : books m ≡ b
      pub idle : (c : ℕ) × (q : List ℕ) × (m.redis.redispool ≡ c ∷ q)

    append-idle : (q : List ℕ) (c : ℕ) → (c' : ℕ) × (q' : List ℕ) × (q ++ c ∷ [] ≡ c' ∷ q')
    append-idle [] c = (c, [], refl)
    append-idle (d ∷ q) c = (d, q ++ c ∷ [], refl)

    redis_connect_lem :
        (c : ℕ) (q : List ℕ) (m : Machine sv)
        → m.redis.redispool ≡ c ∷ q
        → redis_connect sv m
          ≡ done (some c) (record m { redis = record (m.redis) { redispool = q } })
    unfolding redis_connect
    redis_connect_lem c q m e = rw (get_one_connect-front sv c q m.redis m.world e) refl

    command_lem :
        (c : ℕ) (m : Machine sv)
        → Here m.world
        → command sv (some c) (codes "llen %s") (codes "work_list" ∷ []) m
          ≡ done (some (busy.reply c m.world)) (record m {
            world = (redis_command c (codes "llen %s") (codes "work_list" ∷ []) m.world).1;
            replies_made = m.replies_made + 1;
          })
    unfolding command
    command_lem c m h = rw (busy.answers c m.world h) refl

    outnumbers_lem :
        (n success_num : ℕ)
        → on_sale - success_num ≤ n
        → n < 2 ^ 31
        → outnumbers sv fuel n success_num ≡ true
    unfolding outnumbers
    outnumbers_lem n success_num l small = ground arith

    crowded-true :
        (r : Reply) (m : Machine sv)
        → r.type ≡ reply_integer
        → on_sale - m.success_num ≤ r.integer
        → r.integer < 2 ^ 31
        → crowded sv fuel (some r) m ≡ done true (record m { replies_freed = m.replies_freed + 1 })
    unfolding crowded free_reply
    crowded-true r m k l small = rw (k, outnumbers_lem r.integer m.success_num l small) refl

    closed_lem :
        (c : ℕ) (b : Books) (m : Machine sv)
        → Here m.world
        → books m ≡ b
        → Returns
            (do redis_close sv (some c); pure true)
            m
            (λ closed m'. (closed ≡ true) × Waits b m')
    unfolding redis_close
    closed_lem c b m h e = record {
      apply = (
        refl,
        record {
          here = h;
          same = e;
          idle =
              subst (λ q. (c' : ℕ) × (q' : List ℕ) × (q ≡ c' ∷ q'))
                (sym (redispool-close c m.redis)) (append-idle m.redis.redispool c);
        },
      );
    }

    check_gate-Waits :
        (b : Books) (m : Machine sv)
        → Waits b m
        → on_sale - m.success_num ≤ least
        → Returns (check_gate sv fuel) m (λ closed m'. (closed ≡ true) × Waits b m')
    unfolding check_gate
    check_gate-Waits b m w little =
        let (c, q, e) = w.idle in
        Returns-step (redis_connect sv) _ (redis_connect_lem c q m e) (
          Returns-step (command sv (some c) _ _) _ (command_lem c _ w.here) (
            Returns-step (crowded sv fuel (some (busy.reply c m.world))) _
              (crowded-true _ _ (busy.counts c m.world w.here)
                (omega (arith, little, busy.many c m.world w.here)) (busy.fits c m.world w.here))
              (closed_lem c b _ (busy.stays c m.world w.here) w.same)))

    gate_closed-Waits :
        (b : Books) (m : Machine sv)
        → Waits b m
        → b.success_num < on_sale
        → on_sale - b.success_num ≤ least
        → Returns (gate_closed sv fuel) m (λ closed m'. (closed ≡ true) × Waits b m')
    unfolding gate_closed
    gate_closed-Waits b m w some_left little =
        let sold = ap (λ (b : Books). b.success_num) w.same in
        record {
          apply =
              rw (lt→ltb m.success_num on_sale (omega (arith, sold, some_left)))
                (check_gate-Waits b m w (omega (arith, sold, little))).apply;
        }

    handle_rpc-Waits :
        (b : Books) (m : Machine sv)
        → Waits b m
        → b.success_num < on_sale
        → on_sale - b.success_num ≤ least
        → Returns (handle_rpc sv fuel) m (λ _ m'. Waits b m')
    unfolding handle_rpc
    handle_rpc-Waits b m w some_left little =
        Returns-bind (gate_closed-Waits b m w some_left little) λ closed m1 p.
          Returns-if closed (λ _. record { apply = p.1 }) λ e. absurd (ground (arith, p.0))

    -- If a connection to Redis is idle, less than 50 items are counted as sold, and Redis goes on
    -- saying that `work_list` is at least as long as what is left, with a length that fits an `int`, then `HandleRPCS` only goes
    -- round: it returns from every number of rounds with the workers, the counters and the lock as
    -- they were, and every property `Here` of the world that Redis's answer keeps, such as the
    -- events in the completion queue, still holds.
    pub handle_rpcs-Waits :
        (rounds : ℕ) (b : Books) (m : Machine sv)
        → Waits b m
        → b.success_num < on_sale
        → on_sale - b.success_num ≤ least
        → Returns (handle_rpcs sv fuel rounds) m (λ _ m'. Waits b m')
    unfolding handle_rpcs
    handle_rpcs-Waits zero b m w some_left little = record { apply = w }
    handle_rpcs-Waits (suc rounds) b m w some_left little =
        Returns-bind (handle_rpc-Waits b m w some_left little)
          λ _ m1 w1. handle_rpcs-Waits rounds b m1 w1 some_left little
