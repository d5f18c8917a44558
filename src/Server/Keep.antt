-- ===== src/Server/Keep.antt =====
-- GRPC/src/seckill_server.cc: the gate of `HandleRPCS` and the wait for an event keep every frame
-- that the calls they make keep.
use docker_compose_seckill_s.Base.{ℕ, Option, none, some}
use docker_compose_seckill_s.Services.{Services, Reply}
use docker_compose_seckill_s.Machine.Calls.{redis_connect, redis_close}
use docker_compose_seckill_s.Machine.Quiet.{
  Frame, PoolFrame, Keeps, Keeps-bind, Keeps-if, Keeps-pure, Keeps-gets, command-Keeps,
  free_reply-Keeps, redis_connect-Keeps, redis_close-Keeps,
}
use docker_compose_seckill_s.Server.Serve.{crowded, check_gate, gate_closed, cq_next}

module _ (sv : Services) (fuel : ℕ) {fr : Frame sv} (connects : Keeps fr (redis_connect sv))
    (closes : (conn : Option ℕ) → Keeps fr (redis_close sv conn)) where
  crowded-Keeps : (r : Option Reply) → Keeps fr (crowded sv fuel r)
  unfolding crowded
  crowded-Keeps none = Keeps-pure _
  crowded-Keeps (some r) =
      Keeps-if _
        (Keeps-bind (free_reply-Keeps sv (some r))
          λ _. Keeps-bind (Keeps-gets (λ m. m.success_num)) λ n. Keeps-pure _)
        (Keeps-pure _)

  check_gate-Keeps : Keeps fr (check_gate sv fuel)
  unfolding check_gate
  check_gate-Keeps = Keeps-bind (connects) λ conn.
      Keeps-bind (command-Keeps sv conn _ _)
        λ reply. Keeps-bind (crowded-Keeps reply) λ full. Keeps-bind (closes conn) λ _. Keeps-pure _

  pub gate_closed_by-Keeps : Keeps fr (gate_closed sv fuel)
  unfolding gate_closed
  gate_closed_by-Keeps =
      Keeps-bind (Keeps-gets (λ m. m.success_num)) λ n. Keeps-if _ check_gate-Keeps (Keeps-pure _)

module _ (sv : Services) (fuel : ℕ) {fr : Frame sv} (pools : PoolFrame fr) where
  pub gate_closed-Keeps : Keeps fr (gate_closed sv fuel)
  gate_closed-Keeps =
      gate_closed_by-Keeps sv fuel (redis_connect-Keeps sv pools) (redis_close-Keeps sv pools)

  pub cq_next-Keeps : Keeps fr (cq_next sv fuel)
  unfolding cq_next
  cq_next-Keeps = record { apply = λ m. record { apply = pools.after_next m } }
