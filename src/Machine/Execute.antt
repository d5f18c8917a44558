-- ===== src/Machine/Execute.antt =====
-- GRPC/src/mysqlpool.cc: `executeSql`, which runs a query on a connection of the pool and
-- returns its columns by name.
use docker_compose_seckill_s.Base.{
  ℕ, zero, suc, Bool, true, false, List, [], ◌∷◌, ◌++◌, Option, none, some, Bytes, if◌then◌else◌,
  ltb, map,
}
use docker_compose_seckill_s.Services.{Services, Row}
use docker_compose_seckill_s.Machine.Monad.{
  M, done, fault, null_pointer, use_after_free, out_of_rows, pure, raise, ◌>>=◌, ◌>>◌,
}
use docker_compose_seckill_s.Machine.Calls.{
  query, fetch_row, free_result, column, mysql_connect, mysql_close,
}

-- A `const char*` into the memory of a result; it is dangling once the result is freed.
pub record Cell : Type 0 where
  pub text : Option Bytes
  pub dangling : Bool

-- `std::map<const std::string, std::vector<const char*>>`, in the order of its keys.
abbrev pub Columns : Type 0
Columns = List (Bytes × List Cell)

-- `std::less<std::string>` and equality, in one comparison.
pub data Order : Type 0 where
  before same after : Order

unfoldable pub compare_text : Bytes → Bytes → Order
compare_text [] [] = same
compare_text [] (y ∷ ys) = before
compare_text (x ∷ xs) [] = after
compare_text (x ∷ xs) (y ∷ ys) =
    let rest = compare_text xs ys in if ltb x y then before else if ltb y x then after else rest

-- `insert` of an empty vector: a key that is there already is left alone.
unfoldable pub insert_column : Bytes → Columns → Columns
insert_column name [] = (name, []) ∷ []
insert_column name ((k, cells) ∷ m) =
    let rest = insert_column name m in
    elim (compare_text name k) [
      | before ↦ (name, []) ∷ (k, cells) ∷ m
      | same ↦ (k, cells) ∷ m
      | after ↦ (k, cells) ∷ rest
    ]

-- NULL stays NULL.
abbrev pub is_text : Option Bytes → Bool
is_text none = false
is_text (some t) = true

abbrev pub freed : Cell → Cell
freed c = record c { dangling = is_text c.text }

unfoldable pub dangle : Columns → Columns
dangle [] = []
dangle ((k, cells) ∷ m) = (k, map freed cells) ∷ dangle m

module _ (sv : Services) (fuel : ℕ) where
  unfoldable pub store_result : Option ℕ → M sv (Option ℕ)
  store_result none m = fault null_pointer
  store_result (some conn) m =
      let (res, w) = sv.mysql_store_result conn m.world in done res (record m { world = w })

  unfoldable pub fetch_field : ℕ → M sv (Option Bytes)
  fetch_field res m =
      let (name, w) = sv.mysql_fetch_field res m.world in done name (record m { world = w })

  unfoldable pub field_columns : ℕ → ℕ → Columns → M sv Columns
  field_columns zero res results = raise out_of_rows
  field_columns (suc rounds) res results = do
    field ← fetch_field res
    elim field [
      | none ↦ pure results
      | some name ↦ field_columns rounds res (insert_column name results)
    ]

  -- `it->second.push_back(row[i++])` for each entry of the map, in the order of the keys.
  unfoldable pub push_row : Row → ℕ → Columns → M sv Columns
  push_row row i [] = pure []
  push_row row i ((k, cells) ∷ m) = do
    text ← column sv row i
    rest ← push_row row (suc i) m
    pure ((k, cells ++ record { text = text; dangling = false } ∷ []) ∷ rest)

  unfoldable pub push_rows : ℕ → ℕ → Columns → M sv Columns
  push_rows zero res results = raise out_of_rows
  push_rows (suc rounds) res results = do
    row ← fetch_row sv (some res)
    elim row [ none ↦ pure results | some r ↦ push_row r 0 results >>= push_rows rounds res ]

  unfoldable pub read_columns : Option ℕ → M sv Columns
  read_columns none = pure []
  read_columns (some res) = do
    fields ← field_columns fuel res []
    results ← push_rows fuel res fields
    free_result sv (some res)
    pure (dangle results)

  -- Without a connection, `mysql_error` is called on NULL.
  unfoldable pub execute_on : Option ℕ → Bytes → M sv Columns
  execute_on none sql = raise null_pointer
  execute_on (some conn) sql = do
    failed ← query sv (some conn) sql
    results ← if failed then pure [] else (store_result (some conn) >>= read_columns)
    mysql_close sv (some conn)
    pure results

  unfoldable pub execute_sql : Bytes → M sv Columns
  execute_sql sql = do conn ← mysql_connect sv; execute_on conn sql

  -- Reads the text behind such a pointer.
  unfoldable pub read_cell : Cell → M sv (Option Bytes)
  read_cell c = if c.dangling then raise use_after_free else pure c.text
