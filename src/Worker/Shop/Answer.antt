-- ===== src/Worker/Shop/Answer.antt =====
-- GRPC/src/Worker.cc: the middle of `Proceed` serves one request of the shop.
use docker_compose_seckill_s.Base.{
  ℕ, ◌≤◌, ◌≡◌, refl, sym, subst, ap, ◌∙◌, Bool, false, Bytes, Option, none, some, int_max, codes,
  leb, Bool-cases, inl, inr, length, if◌then◌else◌, ◌+◌,
}
use docker_compose_seckill_s.Services.{Services}
use docker_compose_seckill_s.Machine.{Machine, pure, ◌>>=◌, ◌>>◌}
use docker_compose_seckill_s.Machine.Calls.{sprintf_200, autocommit, use_result, free_result}
use docker_compose_seckill_s.Machine.Quiet.{
  Keeps, Ensures, Ensures-bind, Ensures-map, Ensures-step, keeps_then, Keeps-if, Keeps-pure,
  Keeps-bind, query-Keeps, use_result-Keeps,
}
use docker_compose_seckill_s.Worker.Check.{check_user_has_got_mysql, order_in_rows, select_order}
use docker_compose_seckill_s.Worker.Keep.{read_orders-Keeps}
use docker_compose_seckill_s.Worker.Ending.{Ending}
use docker_compose_seckill_s.Worker.Stock.{GoodsDb, CommitFails, order_of}
use docker_compose_seckill_s.Worker.Trade.Statements.{autocommit_lem}
use docker_compose_seckill_s.Worker.Shop.Spec.{Serves, refuses}
use docker_compose_seckill_s.Worker.Shop.Laws.{Apart}
use docker_compose_seckill_s.Worker.Local.{set_result-Keeps, restock-Keeps}
use docker_compose_seckill_s.Worker.Shop.Frames.{shop, shop_frame, shop_local, view_frame, both-eq}
use docker_compose_seckill_s.Worker.Shop.Order.{closes_still, seckill_goods_mysql-Serves}

module _ {sv : Services} (db : GoodsDb sv) (apart : Apart db) (fuel : ℕ) where
  -- A text that fits the buffer is what `sprintf` writes.
  sprintf_200-same :
      (t : Bytes) (m : Machine sv) → Ensures (sprintf_200 sv t) m (λ a m'. (a ≡ t) × (m' ≡ m))
  unfolding sprintf_200
  sprintf_200-same t m = elim (Bool-cases (leb (length t + 1) 200)) [
    | inl e ↦ record { apply = rw e (refl, refl) }
    | inr e ↦ record { apply = rw e refl }
  ]

  module _ (c : ℕ) where
    read_orders_on :
        (failed : Bool)
        → Keeps (view_frame db apart c) (
            if failed then pure false else (do
              res ← use_result sv (some c)
              found ← order_in_rows sv fuel fuel res false
              free_result sv res
              pure found))
    read_orders_on failed =
        Keeps-if failed (Keeps-pure false)
          (Keeps-bind (use_result-Keeps sv (some c)) λ res. read_orders-Keeps sv fuel res)

    -- The look at the orders opens and closes a transaction in which nothing was written.
    looks_on :
        (name key : Bytes) (m : Machine sv)
        → Ensures
            (check_user_has_got_mysql sv fuel name key (some c))
            m
            (λ _ m'. shop db m' ≡ shop db m)
    unfolding check_user_has_got_mysql
    looks_on name key m =
        Ensures-step (autocommit sv (some c) false) _ (autocommit_lem db c false m) (
          Ensures-bind (sprintf_200-same (select_order name) (begun m)) λ sql m1 same.
            keeps_then
              (query-Keeps sv {fr = view_frame db apart c} (some c) sql λ conn.
                subst (λ t. (view_frame db apart c).Plain conn t) (sym same.0)
                  (order_of name, apart.reads_order c conn name))
              λ failed m2 e2. keeps_then (read_orders_on failed) λ got m3 e3.
                Ensures-bind
                  (closes_still db apart c fuel (
                    e3
                    ∙ e2
                    ∙ ap (λ x. (view_frame db apart c).see x) same.1
                    ∙ both-eq m.success_num (db.begins c m.world).0 (db.begins c m.world).1))
                  λ _ m4 e4. record { apply = e4 })
      where
        begun : Machine sv → Machine sv
        begun m = record m { world = sv.mysql_autocommit c false m.world }

  pub looks :
      (name key : Bytes) (conn : Option ℕ)
      → Keeps (shop_frame db apart) (check_user_has_got_mysql sv fuel name key conn)
  unfolding check_user_has_got_mysql autocommit
  looks name key none = record { apply = λ m. record { apply = refl } }
  looks name key (some c) = record { apply = looks_on c name key }

  -- Every way of answering serves the shop once, as long as the stock fits an `int`.
  abbrev pub serving : 2 ≤ fuel → Ending sv fuel
  serving two = record {
    frame = shop_frame db apart;
    Ready = λ s. s.goods.stock ≤ int_max;
    Ends = Serves (CommitFails sv);
    plain = λ c t select. select;
    refuses = λ m small.
        Ensures-map ((set_result-Keeps sv (shop_local db apart) (codes "0")).apply m)
          λ _ m' e. refuses e;
    restocks = λ conn m small.
        keeps_then (restock-Keeps sv (shop_local db apart) fuel conn) λ _ m1 e1.
          Ensures-map ((set_result-Keeps sv (shop_local db apart) (codes "0")).apply m1)
            λ _ m2 e2. refuses (e2 ∙ e1);
    orders =
        λ name key conn m small. seckill_goods_mysql-Serves db apart fuel name key conn m two small;
    looks = looks;
  }
