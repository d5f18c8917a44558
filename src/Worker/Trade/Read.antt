-- ===== src/Worker/Trade/Read.antt =====
-- GRPC/src/Worker.cc: reading the stock inside the transaction.
use docker_compose_seckill_s.Base.{
  ℕ, zero, suc, ◌≤◌, ◌≡◌, refl, sym, subst, ap, ◌∙◌, false, [], ◌∷◌, Option, some, ℤ, pos, int_max,
  to_string, atoi-to_string, atoi-c_str, ◌⊎◌, inl, inr, arith,
}
use docker_compose_seckill_s.Services.{Services}
use docker_compose_seckill_s.Machine.{Machine, pure, ◌>>=◌, ◌>>◌}
use docker_compose_seckill_s.Machine.Calls.{
  num_fields, column, parse_int, deref, parsed_int, query, use_result, free_result,
}
use docker_compose_seckill_s.Machine.Returns.{
  Returns, Returns-bind, Returns-map, Returns-if, Returns-step,
}
use docker_compose_seckill_s.Worker.Order.{select_stock, stock_in_row, stock_in_rows, read_stock}
use docker_compose_seckill_s.Worker.Stock.{GoodsDb, stock_of}
use docker_compose_seckill_s.Worker.Trade.Rows.{
  Same, Same-trans, on_some, on_none, fetch_first, fetch_last, query_lem, use_result_lem,
  free_result-Returns,
}

module _ {sv : Services} (db : GoodsDb sv) (c : ℕ) where
  open db use {committed, view, unread}

  module _ (fuel : ℕ) where
    stock_in_row-Returns :
        (r k : ℕ) (n : ℤ) (m : Machine sv)
        → k ≤ int_max
        → sv.mysql_num_fields r m.world ≡ 1
        → Returns
            (stock_in_row sv fuel (some r) (some (to_string k) ∷ []) n)
            m
            (λ a m'. (a ≡ pos k) × (m' ≡ m))
    unfolding stock_in_row num_fields column parse_int deref parsed_int
    stock_in_row-Returns r k n m small e = record {
      apply = rw (e, atoi-c_str (to_string k), atoi-to_string k small) (refl, refl);
    }

    stock_in_rows-Returns :
        (rounds r k : ℕ) (m : Machine sv)
        → 2 ≤ rounds
        → k ≤ int_max
        → unread r m.world ≡ (some (to_string k) ∷ []) ∷ []
        → sv.mysql_num_fields r m.world ≡ 1
        → Returns
            (stock_in_rows sv fuel rounds (some r) (pos 0))
            m
            (λ a m'. (a ≡ pos k) × Same db c m m')
    unfolding stock_in_rows
    stock_in_rows-Returns zero r k m two small e cols = absurd (omega arith)
    stock_in_rows-Returns (suc zero) r k m two small e cols = absurd (omega arith)
    stock_in_rows-Returns (suc (suc rounds)) r k m two small e cols =
        Returns-bind (fetch_first db c r _ [] m e) λ row m1 p1. on_some db c _ _ p1.0 (
          Returns-bind (stock_in_row-Returns r k (pos 0) m1 small (p1.2 ∙ cols)) λ a m2 p2.
            Returns-bind (fetch_last db c r m2 (ap (λ x. unread r x.world) p2.1 ∙ p1.1))
              λ row2 m3 p3. on_none db c _ _ p3.0 (record {
                apply = (p2.0, Same-trans db c (subst (Same db c m) (sym p2.1) p1.3) p3.1);
              }))

    -- Fetching the answer of the query.
    read_answer-Returns :
        (res : Option ℕ) (r : ℕ) (m : Machine sv)
        → 2 ≤ fuel
        → (view c m.world).stock ≤ int_max
        → res ≡ some r
        → unread r m.world ≡ (some (to_string (view c m.world).stock) ∷ []) ∷ []
        → sv.mysql_num_fields r m.world ≡ 1
        → Returns
            (do
              total_count ← stock_in_rows sv fuel fuel res (pos 0)
              free_result sv res
              pure total_count)
            m
            (λ a m'. (a ≡ pos (view c m.world).stock) × Same db c m m')
    read_answer-Returns res r m two small e rows cols = rw e (
        Returns-bind (stock_in_rows-Returns fuel r _ m two small rows cols) λ a m1 p1.
          Returns-bind (free_result-Returns db c r m1)
            λ _ m2 s. record { apply = (p1.0, Same-trans db c p1.1 s) })

    -- Either the query fails and 0 is reported, or the stock that the transaction sees.
    pub read_stock-Returns :
        (m : Machine sv)
        → 2 ≤ fuel
        → (view c m.world).stock ≤ int_max
        → Returns
            (read_stock sv fuel (some c))
            m
            (λ a m'. ((a ≡ pos 0) ⊎ (a ≡ pos (view c m.world).stock)) × Same db c m m')
    unfolding read_stock
    read_stock-Returns m two small =
        Returns-step (query sv (some c) select_stock) _ (query_lem db c select_stock m) (
          Returns-if _ (λ _. record { apply = (inl refl, selected) })
            λ ok. Returns-step (use_result sv (some c)) _ (use_result_lem db c m1) (after ok))
      where
        m1 : Machine sv
        m1 = record m { world = (sv.mysql_query c select_stock m.world).1 }

        selected : Same db c m m1
        selected = record {
          same_books = refl;
          same_committed = db.reads c select_stock m.world stock_of;
          same_view = (db.selects c m.world).0;
          same_holds = (db.selects c m.world).1;
        }

        m2 : Machine sv
        m2 = record m1 { world = (sv.mysql_use_result c m1.world).1 }

        used : Same db c m1 m2
        used = record {
          same_books = refl;
          same_committed = (db.use_keeps c m1.world).0;
          same_view = (db.use_keeps c m1.world).1;
          same_holds = (db.use_keeps c m1.world).2;
        }

        seen : view c m2.world ≡ view c m.world
        seen = (Same-trans db c selected used).same_view

        after :
            (sv.mysql_query c select_stock m.world).0 ≡ false
            → Returns
                (do
                  total_count ←
                      stock_in_rows sv fuel fuel (sv.mysql_use_result c m1.world).0 (pos 0)
                  free_result sv (sv.mysql_use_result c m1.world).0
                  pure total_count)
                m2
                (λ a m'. ((a ≡ pos 0) ⊎ (a ≡ pos (view c m.world).stock)) × Same db c m m')
        after ok =
            let (r, e, rows, cols) = db.answers c m.world ok in
            Returns-map
              (read_answer-Returns _ r m2 two (subst (λ g. g.stock ≤ int_max) (sym seen) small) e
                (rows ∙ ap (λ g. (some (to_string g.stock) ∷ []) ∷ []) (sym seen)) cols)
              λ a m3 p. (
                inr (p.0 ∙ ap (λ g. pos g.stock) seen),
                Same-trans db c selected (Same-trans db c used p.1),
              )
