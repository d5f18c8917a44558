-- ===== src/Server/Trading.antt =====
-- GRPC/src/seckill_server.cc: the loop of `HandleRPCS` trades as the abstract shop of
-- Worker/Shop/Spec.antt does.
use docker_compose_seckill_s.Base.{
  ℕ, zero, suc, ◌+◌, ◌≤◌, ◌≡◌, refl, sym, subst, ◌∙◌, false, Option, none, some, int_max, arith,
}
use docker_compose_seckill_s.Services.{Services, Request, Event}
use docker_compose_seckill_s.Machine.{Machine, Worker}
use docker_compose_seckill_s.Machine.Quiet.{Keeps, Ensures, Ensures-bind, Ensures-if, Ensures-map}
use docker_compose_seckill_s.Worker.Stock.{GoodsDb, CommitFails}
use docker_compose_seckill_s.Worker.Shop.Spec.{
  Shop, refuses, Serves-after, Trading, opens, serves, Trading-IsFair,
}
use docker_compose_seckill_s.Worker.Shop.Laws.{Apart}
use docker_compose_seckill_s.Worker.Shop.Frames.{
  shop, with_goods, shop_frame, shop_pools, shop_then,
}
use docker_compose_seckill_s.Worker.Shop.Life.{ServesOnce, proceed-Serves, new_worker-Keeps}
use docker_compose_seckill_s.Server.Keep.{gate_closed-Keeps, cq_next-Keeps}
use docker_compose_seckill_s.Server.Serve.{
  deliver, receive, dispatch, handle_rpc, handle_rpcs, init_counters, run_start, run,
}

module _ {sv : Services} (db : GoodsDb sv) (apart : Apart db) (fuel : ℕ) (two : 2 ≤ fuel) where
  receive-Keeps :
      (tag : ℕ) (r : Option Request) (o : Option Worker)
      → Keeps (shop_frame db apart) (receive sv fuel tag r o)
  unfolding receive deliver
  receive-Keeps tag (some request) (some w) = record { apply = λ m. record { apply = refl } }
  receive-Keeps tag none o = record { apply = λ m. record { apply = refl } }
  receive-Keeps tag (some request) none = record { apply = λ m. record { apply = refl } }

  abbrev Fits : Machine sv → Type 0
  Fits m = (db.committed m.world).stock ≤ int_max

  dispatch-Serves :
      (event : Option Event) (m : Machine sv)
      → Fits m
      → ServesOnce db apart fuel (dispatch sv fuel event) m
  unfolding dispatch
  dispatch-Serves none m small = record { apply = refl }
  dispatch-Serves (some event) m small =
      Ensures-if event.ok
        (record {
          apply =
              (shop_then db apart (receive-Keeps event.tag event.arrived (m.workers event.tag))
                λ _ m1 e1.
                  Ensures-map
                    (proceed-Serves db apart fuel two event.tag m1
                      (subst (λ (s : Shop). s.goods.stock ≤ int_max) (sym e1) small))
                    λ _ m2 v. Serves-after e1 refl v).apply;
        })
        (record { apply = refl })

  -- Each round of the loop serves the shop once.
  handle_rpc-Serves : (m : Machine sv) → Fits m → ServesOnce db apart fuel (handle_rpc sv fuel) m
  unfolding handle_rpc
  handle_rpc-Serves m small =
      shop_then db apart (gate_closed-Keeps sv fuel (shop_pools db apart)) λ closed m1 e1.
        Ensures-if closed (record { apply = refuses e1 })
          (shop_then db apart (cq_next-Keeps sv fuel (shop_pools db apart)) λ event m2 e2.
            Ensures-map
              (dispatch-Serves event m2
                (subst (λ (s : Shop). s.goods.stock ≤ int_max) (sym (e2 ∙ e1)) small))
              λ _ m3 v. Serves-after (e2 ∙ e1) refl v)

  handle_rpcs-Trading :
      (rounds n : ℕ) (s : Shop) (m : Machine sv)
      → s.goods.stock ≤ int_max
      → Trading (CommitFails sv) s n (shop db m)
      → Ensures
          (handle_rpcs sv fuel rounds)
          m
          (λ _ m'. Trading (CommitFails sv) s (n + rounds) (shop db m'))
  unfolding handle_rpcs
  handle_rpcs-Trading zero n s m small t = record {
    apply = subst (λ k. Trading (CommitFails sv) s k (shop db m)) (omega arith) t;
  }
  handle_rpcs-Trading (suc rounds) n s m small t =
      Ensures-bind
        (handle_rpc-Serves m (omega (arith, small, (Trading-IsFair s n (shop db m) t).falls)))
        λ _ m1 v. Ensures-map (handle_rpcs-Trading rounds (suc n) s m1 small (serves t v)) λ _ m2 u.
          subst (λ k. Trading (CommitFails sv) s k (shop db m2)) {x = suc n + rounds}
            {y = n + suc rounds} (omega arith) u

  run_start-shop :
      (m : Machine sv)
      → Ensures (run_start sv fuel) m (λ _ m'. shop db m' ≡ with_goods 0 (db.committed m.world))
  unfolding run_start init_counters
  run_start-shop m = record {
    apply =
        ((new_worker-Keeps db apart fuel).apply
          (record m { failed_count = 0; success_num = 0; write_locked = false })).apply;
  }

  -- On a database that keeps the laws of GoodsDb, that no other call touches, with at least two
  -- rounds for the rows of a result and a stock that fits an `int`: whatever the completion queue
  -- and the servers answer, each round that the loop of `HandleRPCS` comes through is a step of
  -- the abstract shop, which sells one item, if there is one, or nothing, or, only if a commit can
  -- fail and an item is there, counts a success without a sale. After `Run` has set the counters,
  -- stock, orders and the count of successes are what such steps make of the goods.
  pub run-Trading :
      (rounds : ℕ) (m : Machine sv)
      → (db.committed m.world).stock ≤ int_max
      → Ensures (run sv fuel rounds) m (λ _ m'.
        Trading (CommitFails sv) (with_goods 0 (db.committed m.world)) rounds (shop db m'))
  unfolding run
  run-Trading rounds m small = Ensures-bind (run_start-shop m) λ _ m1 e1.
      Ensures-map
        (handle_rpcs-Trading rounds 0 (with_goods 0 (db.committed m.world)) m1 small
          (subst (Trading (CommitFails sv) (with_goods 0 (db.committed m.world)) 0) (sym e1) opens))
        λ _ m2 t.
          subst (λ k. Trading (CommitFails sv) (with_goods 0 (db.committed m.world)) k (shop db m2))
            {x = 0 + rounds} {y = rounds} (omega arith) t
