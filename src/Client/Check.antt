-- ===== src/Client/Check.antt =====
-- GRPC/src/seckill_client.cc: `containsDuplicate` and `checkSeckillInfo`.
use docker_compose_seckill_s.Base.{
  ℕ, zero, suc, ◌+◌, Bool, true, false, ◌&&◌, not, List, [], ◌∷◌, Option, none, some, Bytes, codes,
  text_eq, if◌then◌else◌, ltb, leb, ◌==◌, length, ℤ, pos, negsuc,
}
use docker_compose_seckill_s.Services.{Services, Target}
use docker_compose_seckill_s.Machine.{M, pure, raise, modify, ◌>>=◌, ◌>>◌, bad_index, out_of_rows}
use docker_compose_seckill_s.Machine.Calls.{
  parse_int, query, use_result, fetch_row, num_fields, free_result, column, mysql_connect,
}
use docker_compose_seckill_s.Machine.Execute.{Cell, Columns, execute_sql, read_cell}
use docker_compose_seckill_s.MysqlPool

-- The order of `int`.
unfoldable pub less_int : ℤ → ℤ → Bool
less_int (pos a) (pos b) = ltb a b
less_int (pos a) (negsuc b) = false
less_int (negsuc a) (pos b) = true
less_int (negsuc a) (negsuc b) = ltb b a

unfoldable pub same_int : ℤ → ℤ → Bool
same_int (pos a) (pos b) = a == b
same_int (pos a) (negsuc b) = false
same_int (negsuc a) (pos b) = false
same_int (negsuc a) (negsuc b) = a == b

-- `std::sort`, by insertion.
unfoldable pub insert : ℤ → List ℤ → List ℤ
insert x [] = x ∷ []
insert x (y ∷ ys) = if less_int y x then y ∷ insert x ys else x ∷ y ∷ ys

unfoldable pub sort : List ℤ → List ℤ
sort [] = []
sort (x ∷ xs) = insert x (sort xs)

-- The loop over neighbours of a vector that is not empty.
unfoldable pub neighbours_equal : List ℤ → Bool
neighbours_equal [] = false
neighbours_equal (x ∷ []) = false
neighbours_equal (x ∷ y ∷ ys) =
    let rest = neighbours_equal (y ∷ ys) in if same_int x y then true else rest

unfoldable pub sorted_duplicate : List ℤ → Bool
sorted_duplicate nums = neighbours_equal (sort nums)

module _ (sv : Services) (fuel : ℕ) where
  -- On an empty vector `size() - 1` wraps, and the loop reads out of bounds.
  unfoldable pub contains_duplicate : List ℤ → M sv Bool
  contains_duplicate [] = raise bad_index
  contains_duplicate (x ∷ xs) = pure (sorted_duplicate (x ∷ xs))

  unfoldable pub left_in_rows : ℕ → Option ℕ → ℤ → M sv ℤ
  left_in_rows zero res total_count = raise out_of_rows
  left_in_rows (suc rounds) res total_count = do
    row ← fetch_row sv res
    elim row [
      | none ↦ pure total_count
      | some r ↦ do
        n ← num_fields sv res
        count ← if ltb 0 n then column sv r 0 >>= parse_int sv else pure total_count
        left_in_rows rounds res count
    ]

  -- `total_count` stays 0 if the query fails.
  unfoldable pub stock_left : Option ℕ → M sv ℤ
  stock_left connection = do
    failed ← query sv connection (codes "SELECT g_totalcount FROM goods_info WHERE g_id ='10' ")
    if failed then pure (pos 0) else (do
      res ← use_result sv connection
      total_count ← left_in_rows fuel res (pos 0)
      free_result sv res
      pure total_count)

  -- `std::atoi(names[i])` for each name.
  unfoldable pub read_names : List Cell → M sv (List ℤ)
  read_names [] = pure []
  read_names (c ∷ cells) = do
    text ← read_cell sv fuel c
    n ← parse_int sv text
    rest ← read_names cells
    pure (n ∷ rest)

  -- `resul_map["usr_name"]`, if it is there.
  unfoldable pub find_column : Bytes → Columns → List Cell
  find_column name [] = []
  find_column name ((k, cells) ∷ m) = if text_eq name k then cells else find_column name m

  unfoldable pub orders_normal : ℕ → List Cell → M sv Bool
  orders_normal success_count [] = pure true
  orders_normal success_count (c ∷ cells) = do
    names ← read_names (c ∷ cells)
    duplicate ← contains_duplicate names
    pure (length (c ∷ cells) == success_count && not duplicate)

  -- `50 - total_count == success_count`.
  unfoldable pub count_agrees : ℤ → ℕ → Bool
  count_agrees (pos n) success_count = n + success_count == 50
  count_agrees (negsuc n) success_count = 50 + suc n == success_count

  abbrev pub client_target : Target
  client_target = record {
    host = codes "localhost";
    user = codes "root";
    password = codes "14225117sa";
    database = codes "seckill";
    port = 3306;
  }

  -- `delete mysql` at the end is left to the pool's own module.
  unfoldable pub check_seckill_info : ℕ → M sv Bool
  check_seckill_info success_count = do
    modify λ m. record m { mysql = MysqlPool.set_parameter client_target 3 m.mysql }
    connection ← mysql_connect sv
    total_count ← stock_left connection
    results ← execute_sql sv fuel (codes "SELECT usr_name FROM order_info")
    normal ← orders_normal success_count (find_column (codes "usr_name") results)
    modify λ m.
        (let (p, w) = MysqlPool.destroy sv m.mysql m.world in record m { mysql = p; world = w })
    pure (leb success_count 50 && count_agrees total_count success_count && normal)
