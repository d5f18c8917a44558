-- ===== src/Worker/Trade/Statements.antt =====
-- GRPC/src/Worker.cc: the calls of the transaction, and the two statements that write the order.
use docker_compose_seckill_s.Base.{
  ℕ, ◌+◌, ◌≤◌, ◌<◌, ◌≡◌, refl, ap, ◌∙◌, Bool, true, false, not, ◌&&◌, Bytes, some, int_max,
  to_string, codes, length, length-append, length-to_string, lt→ltb, arith,
}
use docker_compose_seckill_s.Services.{Services}
use docker_compose_seckill_s.Machine.{Machine, done}
use docker_compose_seckill_s.Machine.Calls.{
  query, sprintf_200, autocommit, rollback, write_lock, count_failure,
}
use docker_compose_seckill_s.Machine.Quiet.{books}
use docker_compose_seckill_s.Machine.Returns.{Returns, Returns-step}
use docker_compose_seckill_s.Worker.Order.{update_stock, insert_order, write_order}
use docker_compose_seckill_s.Worker.Stock.{Goods, GoodsDb, RowsOf}
use docker_compose_seckill_s.Worker.Trade.Rows.{query_lem}

neither : (a b : Bool) → (not a && not b) ≡ true → (a ≡ false) × (b ≡ false)
neither a b h = ground arith

module _ {sv : Services} (db : GoodsDb sv) (c : ℕ) where
  open db use {committed, view, holds}

  pub sprintf_200_lem :
      (t : Bytes) (m : Machine sv) → length t < 200 → sprintf_200 sv t m ≡ done t m
  unfolding sprintf_200
  sprintf_200_lem t m fits = ground arith

  pub update_stock-fits : (n : ℕ) → n ≤ int_max → length (update_stock n) < 200
  unfolding update_stock
  update_stock-fits n small =
      omega
        (arith, length-append (to_string n) (codes " WHERE g_id = '10' "), length-to_string n small)

  pub rollback_lem :
      (m : Machine sv)
      → rollback sv (some c) m ≡ done tt (record m { world = sv.mysql_rollback c m.world })
  unfolding rollback
  rollback_lem m = refl

  pub autocommit_lem :
      (on : Bool) (m : Machine sv)
      → autocommit sv (some c) on m
        ≡ done tt (record m { world = sv.mysql_autocommit c on m.world })
  unfolding autocommit
  autocommit_lem on m = refl

  pub write_lock_lem :
      (m : Machine sv)
      → m.write_locked ≡ false
      → write_lock sv m ≡ done tt (record m { write_locked = true })
  unfolding write_lock
  write_lock_lem m free = rw free

  pub count_failure_lem :
      (m : Machine sv)
      → m.failed_count < int_max
      → count_failure sv m ≡ done tt (record m { failed_count = m.failed_count + 1 })
  unfolding count_failure
  count_failure_lem m room = rw (lt→ltb _ _ room)

  module _ (fuel : ℕ) (name key : Bytes) where
    pub write_order-Returns :
        (n : ℕ) (m : Machine sv)
        → n ≤ int_max
        → length (insert_order name key) < 200
        → holds c m.world ≡ true
        → Returns (write_order sv fuel name key (some c) n) m (λ ok m'.
          (books m' ≡ books m)
          × (committed m'.world ≡ committed m.world)
          × (ok ≡ true
              → (rows : ℕ) × RowsOf name key rows
                × (view c m'.world
                    ≡ record { stock = n; orders = (view c m.world).orders + rows })))
    unfolding write_order
    write_order-Returns n m small fits holding =
        Returns-step (sprintf_200 sv (update_stock n)) _
          (sprintf_200_lem (update_stock n) m (update_stock-fits n small))
          (Returns-step (query sv (some c) (update_stock n)) _ (query_lem db c (update_stock n) m) (
            Returns-step (sprintf_200 sv (insert_order name key)) _
              (sprintf_200_lem (insert_order name key) m1 fits)
              (Returns-step (query sv (some c) (insert_order name key)) _
                (query_lem db c (insert_order name key) m1)
                (record {
                  apply = (
                    refl,
                    (db.inserts c name key m1.world (db.updates c n m.world holding).1).0
                        ∙ (db.updates c n m.world holding).0,
                    written,
                  );
                }))))
      where
        m1 : Machine sv
        m1 = record m { world = (sv.mysql_query c (update_stock n) m.world).1 }

        written :
            (not (sv.mysql_query c (update_stock n) m.world).0
                && not (sv.mysql_query c (insert_order name key) m1.world).0)
              ≡ true
            → (rows : ℕ) × RowsOf name key rows
              × (view c (sv.mysql_query c (insert_order name key) m1.world).1
                  ≡ record { stock = n; orders = (view c m.world).orders + rows })
        written h =
            let (first, second) = neither _ _ h in
            let (rows, one, e) =
              (db.inserts c name key m1.world (db.updates c n m.world holding).1).1 second in
            (
              rows,
              one,
              e
                  ∙ ap {B = Goods} (λ g. record g { orders = g.orders + rows })
                      ((db.updates c n m.world holding).2 first),
            )
