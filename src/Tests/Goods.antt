-- ===== src/Tests/Goods.antt =====
-- The example servers keep the laws of Worker/Stock.antt.
use docker_compose_seckill_s.Base.{
  ℕ, ◌+◌, ◌≡◌, refl, true, false, Bytes, List, [], ◌∷◌, ◌++◌, none, some, codes, to_string, atoi,
  scan, atoi-to_string_append, leb, int_max, if◌then◌else◌, arith, pos, ◌⊎◌, inl, inr, Bool,
}
use docker_compose_seckill_s.Services.{Row}
use docker_compose_seckill_s.Worker.Order.{update_stock, insert_order, select_stock}
use docker_compose_seckill_s.Worker.Stock.{GoodsDb, Takes, IsSelect, key_of, order_of, stock_of}
use docker_compose_seckill_s.Worker.Check.{select_key, select_order}
use docker_compose_seckill_s.Tests.Fake.{
  Servers, servers, execute, next_row, set_autocommit, commit_on,
}

pub execute-reads : (t : Bytes) (w : Servers) → IsSelect t → (execute t w).1.committed ≡ w.committed
unfolding execute select_key select_order
execute-reads _ w (key_of name) = refl
execute-reads _ w (order_of name) = refl
execute-reads _ w stock_of = refl

scan_stops : (n : ℕ) → scan (codes " WHERE g_id = '10' ") n ≡ n
unfolding scan
scan_stops n = refl

read_update :
    (n : ℕ)
    → atoi (to_string n ++ codes " WHERE g_id = '10' ")
      ≡ (if leb n int_max then some (pos n) else none)
read_update n = atoi-to_string_append n (codes " WHERE g_id = '10' ") (scan_stops n)

pub execute-update :
    (n : ℕ) (w : Servers)
    → ((execute (update_stock n) w).1.committed ≡ w.committed)
      × ((execute (update_stock n) w).0 ≡ false
          → (execute (update_stock n) w).1.mine ≡ record (w.mine) { stock = n })
unfolding execute update_stock
execute-update n w = (ground (arith, read_update n), λ ok. ground (arith, read_update n))

pub next_row-Takes :
    (rows : List Row) (w : Servers) → Takes rows (next_row rows w).0 (next_row rows w).1.rows
unfolding next_row
next_row-Takes [] w = refl
next_row-Takes (r ∷ rows) w = (refl, refl)

pub next_row-keeps :
    (rows : List Row) (w : Servers)
    → ((next_row rows w).1.committed ≡ w.committed) × ((next_row rows w).1.mine ≡ w.mine)
unfolding next_row
next_row-keeps [] w = (refl, refl)
next_row-keeps (r ∷ rows) w = (refl, refl)

pub execute-insert :
    (name key : Bytes) (w : Servers)
    → ((execute (insert_order name key) w).1.committed ≡ w.committed)
      × ((execute (insert_order name key) w).1.mine
          ≡ record (w.mine) { orders = w.mine.orders + 1 })
unfolding execute insert_order
execute-insert name key w = (refl, refl)

execute-select :
    (w : Servers)
    → execute select_stock w
      ≡ (false, record w { rows = (some (to_string w.mine.stock) ∷ []) ∷ [] })
unfolding execute
execute-select w = refl

pub begin-end :
    (w : Servers)
    → ((set_autocommit false w).committed ≡ w.committed)
      × ((set_autocommit false w).mine ≡ w.committed)
      × ((set_autocommit true w).committed ≡ w.mine)
unfolding set_autocommit
begin-end w = (refl, refl, refl)

pub commit_on-commits :
    (b : Bool) (w : Servers)
    → let (failed, w') = commit_on b w in
      ((w'.committed ≡ w.mine) × (w'.mine ≡ w.mine))
      ⊎ ((failed ≡ true)
          × (w'.committed ≡ w.committed)
          × ((w'.mine ≡ w.mine) ⊎ (w'.mine ≡ w.committed)))
unfolding commit_on
commit_on-commits true w = inr (refl, refl, inr refl)
commit_on-commits false w = inl (refl, refl)

unfoldable pub servers-GoodsDb : GoodsDb servers
unfolding execute
servers-GoodsDb = record {
  committed = λ w. w.committed;
  view = λ c w. w.mine;
  holds = λ c w. true;
  unread = λ r w. w.rows;
  begins = λ c w. ((begin-end w).0, (begin-end w).1, refl);
  ends = λ c w. inl ((begin-end w).2);
  commits = λ c w. commit_on-commits _ w;
  rolls_back = λ c w. (refl, refl);
  reads = λ c t w select. execute-reads t w select;
  selects = λ c w. (refl, refl);
  updates = λ c n w held. ((execute-update n w).0, refl, (execute-update n w).1);
  inserts = λ c name key w held. (
    (execute-insert name key w).0,
    λ ok. (1, λ plain plain'. refl, (execute-insert name key w).1),
  );
  answers = λ c w ok. (0, refl, refl, refl);
  fetches = λ r w. next_row-Takes w.rows w;
  same_columns = λ r w. refl;
  use_keeps = λ c w. (refl, refl, refl);
  fetch_keeps = λ c r w. ((next_row-keeps w.rows w).0, (next_row-keeps w.rows w).1, refl);
  free_keeps = λ c r w. (refl, refl, refl);
}
