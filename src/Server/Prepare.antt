-- ===== src/Server/Prepare.antt =====
-- GRPC/src/seckill_server.cc: `prepareForSeckill`. `fuel` bounds the rows that a loop reads.
use docker_compose_seckill_s.Base.{
  ℕ, zero, suc, Bool, true, false, [], ◌∷◌, ◌++◌, Option, none, some, Bytes, codes, to_string, ℤ,
  pos, negsuc, if◌then◌else◌, ltb, ◌==◌, length,
}
use docker_compose_seckill_s.Services.{Services, Row}
use docker_compose_seckill_s.Machine.{
  M, pure, raise, when, ◌>>=◌, ◌>>◌, out_of_rows, exited, null_pointer, done, fault,
}
use docker_compose_seckill_s.Machine.Calls.{
  deref, parse_int, command, free_reply, is_ok, query, use_result, fetch_row, num_fields,
  free_result, column, redis_connect, mysql_connect, redis_close, mysql_close,
}
use docker_compose_seckill_s.Md5.Object
use docker_compose_seckill_s.Md5.Object.{zero_md5}

abbrev create_goods_table : Bytes
create_goods_table =
    codes
      "CREATE TABLE IF NOT EXISTS goods_info(g_name VARCHAR(20) NOT NULL,g_id VARCHAR(20) NOT NULL,g_totalcount INT UNSIGNED NOT NULL,PRIMARY KEY (g_id))"

abbrev insert_goods : Bytes
insert_goods =
    codes
      "INSERT INTO goods_info(g_name, g_id, g_totalcount) VALUES('BMW', '10', 50) ON DUPLICATE KEY UPDATE g_id = '10', g_totalcount = 50"

abbrev drop_orders : Bytes
drop_orders = codes "DROP TABLE IF EXISTS order_info"

abbrev find_user_table : Bytes
find_user_table =
    codes "SELECT table_name FROM information_schema.TABLES WHERE table_name ='usr_info'"

abbrev create_user_table : Bytes
create_user_table =
    codes
      "CREATE TABLE usr_info(usr_name VARCHAR(100) NOT NULL,usr_key VARCHAR(100) NOT NULL,PRIMARY KEY (usr_name))"

abbrev create_order_table : Bytes
create_order_table =
    codes
      "CREATE TABLE IF NOT EXISTS order_info(usr_name VARCHAR(100) NOT NULL,usr_key VARCHAR(100) NOT NULL,goods_id VARCHAR(100) NOT NULL,PRIMARY KEY (usr_name))"

-- The key of user `i`: the digest of name, password and salt, where the password is the name.
-- `junk` is what the stack held before.
unfoldable pub user_key : Bytes → ℕ → Bytes
user_key junk i =
    let prikey = to_string i ++ to_string i ++ codes "salt" in
    Object.to_string (Object.generate junk zero_md5 prikey (length prikey))

-- One round of the loop: the values of user `i`, with a comma unless `i` is `last`.
unfoldable pub user_values : Bytes → ℕ → ℕ → Bytes
user_values junk last i =
    let row = codes "('" ++ to_string i ++ codes "','" ++ user_key junk i in
    if i == last then row ++ codes "')" else row ++ codes "'),"

-- The rounds that are left, from `i` on.
unfoldable pub append_users : Bytes → ℕ → ℕ → ℕ → Bytes → Bytes
append_users junk last zero i sql = sql
append_users junk last (suc rounds) i sql =
    append_users junk last rounds (suc i) (sql ++ user_values junk last i)

-- The loop runs to 400; the comma is left out at 300.
unfoldable pub insert_users : Bytes → Bytes
insert_users junk =
    append_users junk 300 400 1 (codes "INSERT INTO usr_info(usr_name,usr_key) VALUES ")

module _ (sv : Services) (fuel : ℕ) (junk : Bytes) where
  -- `redisFree`.
  unfoldable pub redis_free : Option ℕ → M sv (Unit {0})
  redis_free none m = fault null_pointer
  redis_free (some conn) m = done tt (record m { world = sv.redis_free conn m.world })

  -- `if (mysql_query(…)) exit(1);`
  unfoldable pub query_or_exit : Option ℕ → Bytes → M sv (Unit {0})
  query_or_exit connection sql = do
    failed ← query sv connection sql
    if failed then raise exited else pure tt

  -- Registers the test users where the table was missing; what the statements return is not
  -- looked at.
  unfoldable pub create_users : Option ℕ → Option Row → M sv (Unit {0})
  create_users connection (some row) = pure tt
  create_users connection none = do
    query sv connection create_user_table
    query sv connection (insert_users junk)
    pure tt

  -- One user goes to Redis; `false` says that Redis refused, and the context was freed.
  unfoldable pub load_user : Option ℕ → Option ℕ → Row → M sv Bool
  load_user redisconn res row = do
    n ← num_fields sv res
    if ltb 1 n
        then (do
          name ← deref sv (← column sv row 0)
          key ← deref sv (← column sv row 1)
          reply ← command sv redisconn (codes "HMSET usr_info  %s %s") (name ∷ key ∷ [])
          ok ← is_ok sv reply
          free_reply sv reply
          if ok then pure true else (redis_free redisconn >> pure false))
        else pure true

  unfoldable pub load_users : ℕ → Option ℕ → Option ℕ → M sv Bool
  load_users zero redisconn res = raise out_of_rows
  load_users (suc rounds) redisconn res = do
    row ← fetch_row sv res
    elim row [
      | none ↦ free_result sv res >> pure true
      | some r ↦ do
        loaded ← load_user redisconn res r
        if loaded then load_users rounds redisconn res else pure false
    ]

  -- The columns are counted against 1, and the third one is read.
  unfoldable pub goods_count : ℕ → Option ℕ → ℤ → M sv ℤ
  goods_count zero res total_count = raise out_of_rows
  goods_count (suc rounds) res total_count = do
    row ← fetch_row sv res
    elim row [
      | none ↦ free_result sv res >> pure total_count
      | some r ↦ do
        n ← num_fields sv res
        count ← if ltb 1 n then column sv r 2 >>= parse_int sv else pure total_count
        goods_count rounds res count
    ]

  abbrev int_text : ℤ → Bytes
  int_text (pos n) = to_string n
  int_text (negsuc n) = b'-' ∷ to_string (suc n)

  -- From the query of the goods to the end.
  unfoldable pub publish_count : Option ℕ → Option ℕ → M sv (Unit {0})
  publish_count connection redisconn = do
    query_or_exit connection (codes "SELECT * FROM goods_info")
    res ← use_result sv connection
    total_count ← goods_count fuel res (pos 0)
    query sv connection create_order_table
    reply ←
        command sv redisconn (codes "SET %s %s") (codes "total_count" ∷ int_text total_count ∷ [])
    ok ← is_ok sv reply
    free_reply sv reply
    if ok
        then (do
          count_reply ← command sv redisconn (codes "GET %s") (codes "total_count" ∷ [])
          free_reply sv count_reply
          command sv redisconn (codes "DEL %s") (codes "order_info" ∷ [])
          mysql_close sv connection
          redis_close sv redisconn)
        else (redis_close sv redisconn >> mysql_close sv connection)

  -- Where Redis refuses a user, the function returns and gives neither connection back.
  unfoldable pub prepare_for_seckill : M sv (Unit {0})
  prepare_for_seckill = do
    connection ← mysql_connect sv
    redisconn ← redis_connect sv
    query sv connection create_goods_table
    query sv connection insert_goods
    query sv connection drop_orders
    query_or_exit connection find_user_table
    res ← use_result sv connection
    row ← fetch_row sv res
    create_users connection row
    free_result sv res
    query_or_exit connection (codes "SELECT * FROM usr_info")
    users ← use_result sv connection
    loaded ← load_users fuel redisconn users
    when loaded (publish_count connection redisconn)
