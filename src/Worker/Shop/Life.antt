-- ===== src/Worker/Shop/Life.antt =====
-- GRPC/src/Worker.cc: `Proceed` serves one request of the shop, or none.
use docker_compose_seckill_s.Base.{ℕ, ◌≤◌, refl, sym, subst, ap, ◌∙◌, Option, none, some, int_max}
use docker_compose_seckill_s.Services.{Services}
use docker_compose_seckill_s.Machine.{
  Machine, Worker, WorkerStatus, create, process, finish, M, modify,
}
use docker_compose_seckill_s.Machine.Quiet.{
  Keeps, Ensures, Ensures-bind, Ensures-map, Keeps-bind, Keeps-gets, command-Keeps,
  redis_connect-Keeps, mysql_connect-Keeps, redis_close-Keeps, mysql_close-Keeps,
}
use docker_compose_seckill_s.Worker.Proceed.{
  proceed_create, new_worker, set_finish, load_self, save_self, delete_self, proceed_process,
  proceed_finish, proceed_as, proceed_at, proceed,
}
use docker_compose_seckill_s.Worker.Ending.{answer-Answers}
use docker_compose_seckill_s.Worker.Stock.{GoodsDb, CommitFails}
use docker_compose_seckill_s.Worker.Shop.Spec.{Shop, Serves, refuses, Serves-after}
use docker_compose_seckill_s.Worker.Shop.Laws.{Apart}
use docker_compose_seckill_s.Worker.Shop.Frames.{
  shop, with_goods, shop_frame, shop_pools, shop_then,
}
use docker_compose_seckill_s.Worker.Shop.Answer.{serving}

module _ {sv : Services} (db : GoodsDb sv) (apart : Apart db) (fuel : ℕ) where
  abbrev pub ServesOnce : M sv (Unit {0}) → Machine sv → Type 0
  ServesOnce act m = Ensures act m (λ _ m'. Serves (CommitFails sv) (shop db m) (shop db m'))

  set_finish-Keeps : Keeps (shop_frame db apart) (set_finish sv fuel)
  unfolding set_finish
  set_finish-Keeps = record { apply = λ m. record { apply = refl } }

  pub new_worker-Keeps : Keeps (shop_frame db apart) (new_worker sv fuel)
  unfolding new_worker proceed_create
  new_worker-Keeps = record {
    apply = λ m. record {
      apply = ap (with_goods m.success_num) (apart.request_keeps m.next_worker m.world);
    };
  }

  load_self-Keeps : (w : Worker) → Keeps (shop_frame db apart) (load_self sv fuel w)
  unfolding load_self
  load_self-Keeps w = record { apply = λ m. record { apply = refl } }

  save_self-Keeps : (this : ℕ) → Keeps (shop_frame db apart) (save_self sv fuel this)
  unfolding save_self
  save_self-Keeps this = record { apply = λ m. record { apply = refl } }

  delete_self-Keeps : (this : ℕ) → Keeps (shop_frame db apart) (delete_self sv fuel this)
  unfolding delete_self
  delete_self-Keeps this = record { apply = λ m. record { apply = refl } }

  sent-Keeps :
      (this : ℕ)
      → Keeps
          (shop_frame db apart)
          (modify {sv = sv} λ m. record m { world = sv.finish this m.self.response m.world })
  sent-Keeps this = record {
    apply = λ m. record { apply = (shop_pools db apart).after_finish this m.self.response m };
  }

  proceed_finish-Keeps : Keeps (shop_frame db apart) (proceed_finish sv fuel)
  unfolding proceed_finish
  proceed_finish-Keeps = Keeps-bind (redis_connect-Keeps sv (shop_pools db apart)) λ redis.
      Keeps-bind (command-Keeps sv redis _ _) λ _. redis_close-Keeps sv (shop_pools db apart) redis

  module _ (two : 2 ≤ fuel) where
    proceed_process-Serves :
        (this : ℕ) (m : Machine sv)
        → (db.committed m.world).stock ≤ int_max
        → ServesOnce (proceed_process sv fuel this) m
    unfolding proceed_process
    proceed_process-Serves this m small =
        shop_then db apart (redis_connect-Keeps sv (shop_pools db apart)) λ redis m1 e1.
          shop_then db apart (mysql_connect-Keeps sv (shop_pools db apart)) λ mysql m2 e2.
            shop_then db apart set_finish-Keeps λ _ m3 e3.
              shop_then db apart (command-Keeps sv redis _ _) λ _ m4 e4.
                shop_then db apart new_worker-Keeps λ _ m5 e5.
                  shop_then db apart (Keeps-gets (λ x. x.self.request)) λ request m6 e6.
                    let before = e6 ∙ e5 ∙ e4 ∙ e3 ∙ e2 ∙ e1 in
                    Ensures-bind
                      ((answer-Answers (serving db apart fuel two) request.usrname request.usrkey
                          redis mysql).apply
                        m6 (subst (λ (s : Shop). s.goods.stock ≤ int_max) (sym before) small))
                      λ _ m7 v.
                        shop_then db apart (redis_close-Keeps sv (shop_pools db apart) redis)
                          λ _ m8 e8.
                            shop_then db apart (mysql_close-Keeps sv (shop_pools db apart) mysql)
                              λ _ m9 e9.
                                Ensures-map ((sent-Keeps this).apply m9)
                                  λ _ m10 e10. Serves-after before (e10 ∙ e9 ∙ e8) v

    proceed_as-Serves :
        (this : ℕ) (w : Worker) (s : WorkerStatus) (m : Machine sv)
        → (db.committed m.world).stock ≤ int_max
        → ServesOnce (proceed_as sv fuel this w s) m
    unfolding proceed_as proceed_create
    proceed_as-Serves this w create m small = record {
      apply = refuses (ap (with_goods m.success_num) (apart.request_keeps this m.world));
    }
    proceed_as-Serves this w process m small = shop_then db apart (load_self-Keeps w) λ _ m1 e1.
        Ensures-bind
          (proceed_process-Serves this m1
            (subst (λ (s : Shop). s.goods.stock ≤ int_max) (sym e1) small))
          λ _ m2 v. Ensures-map ((save_self-Keeps this).apply m2) λ _ m3 e3. Serves-after e1 e3 v
    proceed_as-Serves this w finish m small = shop_then db apart (load_self-Keeps w) λ _ m1 e1.
        shop_then db apart proceed_finish-Keeps λ _ m2 e2.
          Ensures-map ((delete_self-Keeps this).apply m2) λ _ m3 e3. refuses (e3 ∙ e2 ∙ e1)

    proceed_at-Serves :
        (this : ℕ) (o : Option Worker) (m : Machine sv)
        → (db.committed m.world).stock ≤ int_max
        → ServesOnce (proceed_at sv fuel this o) m
    unfolding proceed_at
    proceed_at-Serves this none m small = record { apply = refl }
    proceed_at-Serves this (some w) m small = proceed_as-Serves this w w.status m small

    pub proceed-Serves :
        (this : ℕ) (m : Machine sv)
        → (db.committed m.world).stock ≤ int_max
        → ServesOnce (proceed sv fuel this) m
    unfolding proceed
    proceed-Serves this m small = record {
      apply = (proceed_at-Serves this (m.workers this) m small).apply;
    }
