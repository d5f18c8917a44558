-- ===== src/Worker/Stock.antt =====
-- What the transaction of GRPC/src/Worker.cc needs of MySQL, as a client sees it: autocommit,
-- commit and rollback, reading one's own writes, the answers of the three statements.
use docker_compose_seckill_s.Base.{
  ℕ, ◌+◌, ◌≡◌, Bool, true, false, ◌&&◌, ◌⊎◌, leb, Bytes, List, [], ◌∷◌, Option, none, some,
  if◌then◌else◌, to_string,
}
use docker_compose_seckill_s.Services.{Services, Row}
use docker_compose_seckill_s.Worker.Check.{select_key, select_order}
use docker_compose_seckill_s.Worker.Order.{select_stock, update_stock, insert_order}

-- `g_totalcount` of the goods with `g_id` '10', and the number of rows of `order_info`.
pub record Goods : Type 0 where
  pub stock : ℕ
  pub orders : ℕ

-- A row that was fetched from the unread ones, and those that are left.
abbrev pub Takes : List Row → Option Row → List Row → Type 0
Takes [] row left = row ≡ none
Takes (r ∷ rows) row left = (row ≡ some r) × (left ≡ rows)

-- The queries that only read.
pub data IsSelect : Bytes → Type 0 where
  key_of : (name : Bytes) → IsSelect (select_key name)
  order_of : (name : Bytes) → IsSelect (select_order name)
  stock_of : IsSelect select_stock

-- Digits and small letters: nothing that ends a text in SQL.
abbrev pub plain : Bytes → Bool
plain [] = true
plain (c ∷ t) = (if leb 48 c && leb c 57 then true else leb 97 c && leb c 122) && plain t

abbrev pub IsPlain : Bytes → Type 0
IsPlain t = plain t ≡ true

-- How many orders an INSERT of these texts may add.
abbrev pub RowsOf : Bytes → Bytes → ℕ → Type 0
RowsOf name key rows = IsPlain name → IsPlain key → rows ≡ 1

-- The server may report that a commit failed.
abbrev pub CommitFails : Services → Type 0
CommitFails sv = (c : ℕ) × (w : sv.World) × ((sv.mysql_commit c w).0 ≡ true)

pub record GoodsDb (sv : Services) : Type 0 where
  -- What is committed, and what a connection sees in its own transaction.
  pub committed : sv.World → Goods
  pub view : ℕ → sv.World → Goods
  -- Whether a connection holds back what it writes: its transaction is open, or it has lost the
  -- server, so that no statement arrives.
  pub holds : ℕ → sv.World → Bool
  -- The rows of a result that were not fetched yet.
  pub unread : ℕ → sv.World → List Row
  -- `autocommit(OFF)` begins a transaction on what is committed.
  pub begins :
      (c : ℕ) (w : sv.World)
      → (committed (sv.mysql_autocommit c false w) ≡ committed w)
        × (view c (sv.mysql_autocommit c false w) ≡ committed w)
        × (holds c (sv.mysql_autocommit c false w) ≡ true)
  -- `autocommit(ON)` makes permanent what the transaction wrote, or fails.
  pub ends :
      (c : ℕ) (w : sv.World)
      → (committed (sv.mysql_autocommit c true w) ≡ view c w)
        ⊎ (committed (sv.mysql_autocommit c true w) ≡ committed w)
  -- `commit` does, or it fails, and then the transaction may be lost or still be open.
  pub commits :
      (c : ℕ) (w : sv.World)
      → let (failed, w') = sv.mysql_commit c w in
        ((committed w' ≡ view c w) × (view c w' ≡ view c w))
        ⊎ ((failed ≡ true)
            × (committed w' ≡ committed w)
            × ((view c w' ≡ view c w) ⊎ (view c w' ≡ committed w)))
  -- `rollback` forgets it.
  pub rolls_back :
      (c : ℕ) (w : sv.World)
      → (committed (sv.mysql_rollback c w) ≡ committed w)
        × (view c (sv.mysql_rollback c w) ≡ committed w)
  -- A SELECT changes nothing, whatever the name in it: a connection that is opened without
  -- CLIENT_MULTI_STATEMENTS takes one statement at a time.
  pub reads :
      (c : ℕ) (t : Bytes) (w : sv.World)
      → IsSelect t
      → committed (sv.mysql_query c t w).1 ≡ committed w
  pub selects :
      (c : ℕ) (w : sv.World)
      → (view c (sv.mysql_query c select_stock w).1 ≡ view c w)
        × (holds c (sv.mysql_query c select_stock w).1 ≡ holds c w)
  -- In a transaction UPDATE and INSERT change what the connection sees, if they succeed, and
  -- nothing else. The INSERT adds one row if name and key end no text; otherwise what stands in
  -- them decides how many.
  pub updates :
      (c n : ℕ) (w : sv.World)
      → holds c w ≡ true
      → let (failed, w') = sv.mysql_query c (update_stock n) w in
        (committed w' ≡ committed w)
        × (holds c w' ≡ true)
        × (failed ≡ false → view c w' ≡ record (view c w) { stock = n })
  pub inserts :
      (c : ℕ) (name key : Bytes) (w : sv.World)
      → holds c w ≡ true
      → let (failed, w') = sv.mysql_query c (insert_order name key) w in
        (committed w' ≡ committed w)
        × (failed ≡ false
            → (rows : ℕ) × RowsOf name key rows
              × (view c w' ≡ record (view c w) { orders = (view c w).orders + rows }))
  -- After a SELECT that succeeds the result has one row with one column, the stock in decimal.
  pub answers :
      (c : ℕ) (w : sv.World)
      → (sv.mysql_query c select_stock w).0 ≡ false
      → let (res, w') = sv.mysql_use_result c (sv.mysql_query c select_stock w).1 in
        (r : ℕ) × (res ≡ some r)
        × (unread r w' ≡ (some (to_string (view c w).stock) ∷ []) ∷ [])
        × (sv.mysql_num_fields r w' ≡ 1)
  -- Rows come one by one, then NULL.
  pub fetches :
      (r : ℕ) (w : sv.World)
      → Takes (unread r w) (sv.mysql_fetch_row r w).0 (unread r (sv.mysql_fetch_row r w).1)
  pub same_columns :
      (r : ℕ) (w : sv.World)
      → sv.mysql_num_fields r (sv.mysql_fetch_row r w).1 ≡ sv.mysql_num_fields r w
  -- Reading a result changes no data.
  pub use_keeps :
      (c : ℕ) (w : sv.World)
      → (committed (sv.mysql_use_result c w).1 ≡ committed w)
        × (view c (sv.mysql_use_result c w).1 ≡ view c w)
        × (holds c (sv.mysql_use_result c w).1 ≡ holds c w)
  pub fetch_keeps :
      (c r : ℕ) (w : sv.World)
      → (committed (sv.mysql_fetch_row r w).1 ≡ committed w)
        × (view c (sv.mysql_fetch_row r w).1 ≡ view c w)
        × (holds c (sv.mysql_fetch_row r w).1 ≡ holds c w)
  pub free_keeps :
      (c r : ℕ) (w : sv.World)
      → (committed (sv.mysql_free_result r w) ≡ committed w)
        × (view c (sv.mysql_free_result r w) ≡ view c w)
        × (holds c (sv.mysql_free_result r w) ≡ holds c w)
