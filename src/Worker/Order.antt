-- ===== src/Worker/Order.antt =====
-- GRPC/src/Worker.cc: `seckillGoods_mysql`, the transaction that takes one item from the stock
-- and records the order.
use docker_compose_seckill_s.Base.{
  ℕ, zero, suc, ◌-◌, Bool, true, false, not, ◌&&◌, ◌++◌, Option, none, some, Bytes, codes, c_str,
  to_string, ℤ, pos, pos_part, if◌then◌else◌, ltb,
}
use docker_compose_seckill_s.Services.{Services, Row}
use docker_compose_seckill_s.Machine.{M, pure, raise, ◌>>=◌, ◌>>◌, out_of_rows}
use docker_compose_seckill_s.Machine.Calls.{
  parse_int, sprintf_200, query, use_result, fetch_row, num_fields, free_result, column, autocommit,
  commit, rollback, write_lock, unlock, set_result, count_failure, count_success,
}

abbrev pub select_stock : Bytes
select_stock = codes "SELECT g_totalcount FROM goods_info WHERE g_id ='10' FOR UPDATE"

unfoldable pub update_stock : ℕ → Bytes
update_stock total_count =
    codes "UPDATE goods_info SET g_totalcount = "
    ++ to_string total_count
    ++ codes " WHERE g_id = '10' "

unfoldable pub insert_order : Bytes → Bytes → Bytes
insert_order usr_name usr_key =
    codes "INSERT INTO order_info(usr_name,usr_key,goods_id) VALUES ('"
    ++ c_str usr_name
    ++ codes "','"
    ++ c_str usr_key
    ++ codes "','10')"

module _ (sv : Services) (fuel : ℕ) where
  unfoldable pub stock_in_row : Option ℕ → Row → ℤ → M sv ℤ
  stock_in_row res row total_count = do
    n ← num_fields sv res
    if ltb 0 n then column sv row 0 >>= parse_int sv else pure total_count

  -- The last row decides.
  unfoldable pub stock_in_rows : ℕ → Option ℕ → ℤ → M sv ℤ
  stock_in_rows zero res total_count = raise out_of_rows
  stock_in_rows (suc rounds) res total_count = do
    row ← fetch_row sv res
    elim row [
      | none ↦ pure total_count
      | some r ↦ stock_in_row res r total_count >>= stock_in_rows rounds res
    ]

  -- `total_count` stays 0 if the query fails.
  unfoldable pub read_stock : Option ℕ → M sv ℤ
  read_stock connection = do
    failed ← query sv connection select_stock
    if failed then pure (pos 0) else (do
      res ← use_result sv connection
      total_count ← stock_in_rows fuel res (pos 0)
      free_result sv res
      pure total_count)

  -- Whether both statements went through; the second runs also where the first failed.
  unfoldable pub write_order : Bytes → Bytes → Option ℕ → ℕ → M sv Bool
  write_order usr_name usr_key connection total_count = do
    update_sql ← sprintf_200 sv (update_stock total_count)
    update_failed ← query sv connection update_sql
    insert_sql ← sprintf_200 sv (insert_order usr_name usr_key)
    insert_failed ← query sv connection insert_sql
    pure (not update_failed && not insert_failed)

  unfoldable pub end_order : Option ℕ → Bool → M sv (Unit {0})
  end_order connection false = do
    rollback sv connection
    write_lock sv
    count_failure sv
    unlock sv
    set_result sv (codes "0")
  end_order connection true = do commit sv connection; set_result sv (codes "1"); count_success sv

  -- A failed SELECT leaves `total_count` at 0 and so ends in the early return.
  unfoldable pub seckill_goods_mysql : Bytes → Bytes → Option ℕ → M sv (Unit {0})
  seckill_goods_mysql usr_name usr_key connection = do
    autocommit sv connection false
    total_count ← read_stock connection
    if ltb 0 (pos_part total_count)
        then (do
          is_suc ← write_order usr_name usr_key connection (pos_part total_count - 1)
          end_order connection is_suc
          autocommit sv connection true)
        else (do set_result sv (codes "0"); autocommit sv connection true)
