-- ===== src/Worker/Trade/Write.antt =====
-- GRPC/src/Worker.cc: the transaction as a whole.
use docker_compose_seckill_s.Base.{
  ℕ, ◌+◌, ◌-◌, ◌≤◌, ◌<◌, ◌≡◌, sym, subst, ◌∙◌, true, false, Bytes, some, ℤ, pos, pos_part, int_max,
  length, ◌⊎◌, ltb, arith,
}
use docker_compose_seckill_s.Services.{Services}
use docker_compose_seckill_s.Machine.{Machine}
use docker_compose_seckill_s.Machine.Calls.{autocommit}
use docker_compose_seckill_s.Machine.Returns.{Returns, Returns-bind, Returns-if, Returns-step}
use docker_compose_seckill_s.Worker.Order.{insert_order, seckill_goods_mysql}
use docker_compose_seckill_s.Worker.Stock.{Goods, GoodsDb, RowsOf}
use docker_compose_seckill_s.Worker.Trade.Read.{read_stock-Returns}
use docker_compose_seckill_s.Worker.Trade.Statements.{autocommit_lem, write_order-Returns}
use docker_compose_seckill_s.Worker.Trade.End.{Trade, end-Trade, none-Trade}

module _ {sv : Services} (db : GoodsDb sv) (c : ℕ) where
  open db use {committed, view, holds}

  module _ (fuel : ℕ) (name key : Bytes) where
    -- A positive count is the stock.
    pub in_stock-eq :
        (n : ℤ) (k : ℕ)
        → (n ≡ pos 0) ⊎ (n ≡ pos k)
        → ltb 0 (pos_part n) ≡ true
        → (pos_part n ≡ k) × (0 < k)
    in_stock-eq n k h t = ground arith

    -- On a database that keeps the laws of GoodsDb, with at least two rounds for the rows of a
    -- result, a live connection, a name and a key that fit the buffer, a stock that fits an `int`,
    -- counters below their limit and the lock free, the order from MySQL always comes to an end, in
    -- one of three ways. Either one item leaves the stock, which was not empty, orders are added,
    -- exactly one if name and key are of digits and small letters, the answer is "1" and one success
    -- is counted; or a commit can fail, an item was there, stock and orders are as before, and still
    -- the answer is "1" and one success is counted; or stock and orders are as before, the answer
    -- is "0" and at most one failure is recorded.
    pub seckill_goods_mysql-Trade :
        (m : Machine sv)
        → 2 ≤ fuel
        → length (insert_order name key) < 200
        → (committed m.world).stock ≤ int_max
        → m.success_num < int_max
        → m.failed_count < int_max
        → m.write_locked ≡ false
        → Returns
            (seckill_goods_mysql sv fuel name key (some c))
            m
            (λ _ m'. Trade db (RowsOf name key) m m')
    unfolding seckill_goods_mysql
    seckill_goods_mysql-Trade m two fits small room room' free =
        Returns-step (autocommit sv (some c) false) _ (autocommit_lem db c false m) (
          Returns-bind
            (read_stock-Returns db c fuel m1 two
              (subst (λ g. g.stock ≤ int_max) (sym begun.1) small))
            λ n m2 p2.
              Returns-if _
                (λ positive.
                  let (k, in_stock) =
                    in_stock-eq n (committed m.world).stock
                      (subst (λ g. (n ≡ pos 0) ⊎ (n ≡ pos g.stock)) begun.1 p2.0) positive in
                  Returns-bind
                    (write_order-Returns db c fuel name key (pos_part n - 1) m2
                      (omega (arith, k, small)) fits (p2.1.same_holds ∙ begun.2))
                    λ ok m3 p3.
                      end-Trade db c fuel (RowsOf name key) m m3 (p3.0 ∙ p2.1.same_books)
                        (p3.1 ∙ p2.1.same_committed ∙ begun.0) room room' free ok in_stock
                        (λ e.
                          let (rows, one, v) = p3.2 e in
                          (rows, one, v ∙ seen_goods n m2 rows k (p2.1.same_view ∙ begun.1))))
                (λ sold_out.
                  none-Trade db c fuel (RowsOf name key) m m2 p2.1.same_books
                    (p2.1.same_committed ∙ begun.0) room room' free (p2.1.same_view ∙ begun.1)))
      where
        m1 : Machine sv
        m1 = record m { world = sv.mysql_autocommit c false m.world }

        begun :
            (committed m1.world ≡ committed m.world)
            × (view c m1.world ≡ committed m.world)
            × (holds c m1.world ≡ true)
        begun = db.begins c m.world

        seen_goods :
            (n : ℤ) (m2 : Machine sv) (rows : ℕ)
            → pos_part n ≡ (committed m.world).stock
            → view c m2.world ≡ committed m.world
            → ◌≡◌ {A = Goods}
                (record { stock = pos_part n - 1; orders = (view c m2.world).orders + rows })
                (record {
                  stock = (committed m.world).stock - 1;
                  orders = (committed m.world).orders + rows;
                })
        seen_goods n m2 rows k v = λ i. record { stock = k i - 1; orders = (v i).orders + rows }
