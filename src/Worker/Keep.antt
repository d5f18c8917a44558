-- ===== src/Worker/Keep.antt =====
-- The parts of GRPC/src/Worker.cc that only read, and so keep every frame that the calls they make
-- keep.
use docker_compose_seckill_s.Base.{
  ℕ, zero, suc, refl, Bool, true, false, Bytes, Option, none, some, ℤ, pos, leb, length, ◌+◌,
  Bool-cases, inl, inr,
}
use docker_compose_seckill_s.Services.{Services, Reply, Row}
use docker_compose_seckill_s.Machine.{M, pure, ◌>>=◌, ◌>>◌}
use docker_compose_seckill_s.Machine.Calls.{sprintf_200, free_result}
use docker_compose_seckill_s.Machine.Quiet.{
  Frame, Keeps, Keeps-pure, Keeps-raise, Keeps-bind, Keeps-if, Keeps-option, deref-Keeps,
  parse_int-Keeps, sprintf_200-Keeps, command-Keeps, free_reply-Keeps, query-Keeps,
  use_result-Keeps, fetch_row-Keeps, num_fields-Keeps, free_result-Keeps, column-Keeps,
  autocommit-IsQuiet, IsQuiet,
}
use docker_compose_seckill_s.Worker.Check.{
  select_key, key_in_row, key_in_rows, check_user_info_mysql, check_user_info, matches_key,
  order_in_rows, check_user_has_got_mysql, check_user_has_got,
}
use docker_compose_seckill_s.Worker.Stock.{IsSelect, key_of, stock_of}
use docker_compose_seckill_s.Worker.Order.{stock_in_row, stock_in_rows, read_stock, write_order}

module _ (sv : Services) (fuel : ℕ) {fr : Frame sv} where
  key_in_row-Keeps :
      (key : Bytes) (res : Option ℕ) (row : Row) (b : Bool)
      → Keeps fr (key_in_row sv fuel key res row b)
  unfolding key_in_row
  key_in_row-Keeps key res row b = Keeps-bind (num_fields-Keeps sv res) λ n.
      Keeps-if _
        (Keeps-bind (column-Keeps sv row 0) λ t. Keeps-bind (deref-Keeps sv t) λ k. Keeps-pure _)
        (Keeps-pure _)

  key_in_rows-Keeps :
      (rounds : ℕ) (key : Bytes) (res : Option ℕ) (b : Bool)
      → Keeps fr (key_in_rows sv fuel rounds key res b)
  unfolding key_in_rows
  key_in_rows-Keeps zero key res b = Keeps-raise _ refl
  key_in_rows-Keeps (suc rounds) key res b = Keeps-bind (fetch_row-Keeps sv res) λ row.
      Keeps-option row (Keeps-pure _)
        λ r. Keeps-bind (key_in_row-Keeps key res r b) (key_in_rows-Keeps rounds key res)

  matches_key-Keeps : (r : Option Reply) (key : Bytes) → Keeps fr (matches_key sv fuel r key)
  unfolding matches_key
  matches_key-Keeps none key = Keeps-pure _
  matches_key-Keeps (some r) key =
      Keeps-if _ (Keeps-bind (deref-Keeps sv r.str) λ k. Keeps-pure _) (Keeps-pure _)

  order_in_rows-Keeps :
      (rounds : ℕ) (res : Option ℕ) (b : Bool) → Keeps fr (order_in_rows sv fuel rounds res b)
  unfolding order_in_rows
  order_in_rows-Keeps zero res b = Keeps-raise _ refl
  order_in_rows-Keeps (suc rounds) res b = Keeps-bind (fetch_row-Keeps sv res) λ row.
      Keeps-option row (Keeps-pure _)
        λ r. Keeps-bind (num_fields-Keeps sv res) λ n. order_in_rows-Keeps rounds res _

  stock_in_row-Keeps :
      (res : Option ℕ) (row : Row) (n : ℤ) → Keeps fr (stock_in_row sv fuel res row n)
  unfolding stock_in_row
  stock_in_row-Keeps res row n =
      Keeps-bind (num_fields-Keeps sv res)
        λ k. Keeps-if _ (Keeps-bind (column-Keeps sv row 0) (parse_int-Keeps sv)) (Keeps-pure _)

  stock_in_rows-Keeps :
      (rounds : ℕ) (res : Option ℕ) (n : ℤ) → Keeps fr (stock_in_rows sv fuel rounds res n)
  unfolding stock_in_rows
  stock_in_rows-Keeps zero res n = Keeps-raise _ refl
  stock_in_rows-Keeps (suc rounds) res n = Keeps-bind (fetch_row-Keeps sv res) λ row.
      Keeps-option row (Keeps-pure _)
        λ r. Keeps-bind (stock_in_row-Keeps res r n) (stock_in_rows-Keeps rounds res)

  -- What both readers of a result do with it.
  pub read_orders-Keeps :
      (res : Option ℕ)
      → Keeps fr (do found ← order_in_rows sv fuel fuel res false; free_result sv res; pure found)
  read_orders-Keeps res =
      Keeps-bind (order_in_rows-Keeps fuel res false)
        λ b. Keeps-bind (free_result-Keeps sv res) λ _. Keeps-pure _

  pub check_user_has_got_redis-Keeps :
      (name key : Bytes) (conn : ℕ) (mysql : Option ℕ)
      → Keeps fr (check_user_has_got sv fuel name key (some conn) mysql)
  unfolding check_user_has_got
  check_user_has_got_redis-Keeps name key conn mysql =
      Keeps-bind (command-Keeps sv (some conn) _ _) λ reply.
        Keeps-if _ (Keeps-pure _) (Keeps-bind (free_reply-Keeps sv reply) λ _. Keeps-pure _)

  pub check_user_has_got-Keeps :
      (name key : Bytes) (redis mysql : Option ℕ)
      → Keeps fr (check_user_has_got_mysql sv fuel name key mysql)
      → Keeps fr (check_user_has_got sv fuel name key redis mysql)
  unfolding check_user_has_got
  check_user_has_got-Keeps name key none mysql in_mysql = in_mysql
  check_user_has_got-Keeps name key (some conn) mysql in_mysql =
      check_user_has_got_redis-Keeps name key conn mysql

  -- What `sprintf` writes is the text, if it fits.
  sprintf_then :
      {A : Type 0} (t : Bytes) (f : Bytes → M sv A)
      → Keeps fr (f t)
      → Keeps fr (sprintf_200 sv t >>= f)
  unfolding sprintf_200
  sprintf_then t f q = elim (Bool-cases (leb (length t + 1) 200)) [
    | inl fits ↦ record { apply = λ m. rw fits (q.apply m) }
    | inr long ↦ record { apply = λ m. rw long (record { apply = refl }) }
  ]

  module _ (plain : (c : ℕ) (t : Bytes) → IsSelect t → fr.Plain c t) where
    check_user_info_mysql-Keeps :
        (name key : Bytes) (conn : Option ℕ)
        → Keeps fr (check_user_info_mysql sv fuel name key conn)
    unfolding check_user_info_mysql
    check_user_info_mysql-Keeps name key conn = sprintf_then (select_key name) _ (
        Keeps-bind (query-Keeps sv conn (select_key name) λ c. plain c _ (key_of name)) λ failed.
          Keeps-if failed (Keeps-pure _) (
            Keeps-bind (use_result-Keeps sv conn) λ res.
              Keeps-bind (key_in_rows-Keeps fuel key res false)
                λ b. Keeps-bind (free_result-Keeps sv res) λ _. Keeps-pure _))

    pub check_user_info-Keeps :
        (name key : Bytes) (redis mysql : Option ℕ)
        → Keeps fr (check_user_info sv fuel name key redis mysql)
    unfolding check_user_info
    check_user_info-Keeps name key none mysql = check_user_info_mysql-Keeps name key mysql
    check_user_info-Keeps name key (some conn) mysql =
        Keeps-bind (command-Keeps sv (some conn) _ _) λ reply.
          Keeps-bind (matches_key-Keeps reply key) λ matched.
            Keeps-if matched (Keeps-pure _)
              (Keeps-bind (free_reply-Keeps sv reply) λ _. Keeps-pure _)

    pub read_stock-Keeps : (conn : Option ℕ) → Keeps fr (read_stock sv fuel conn)
    unfolding read_stock
    read_stock-Keeps conn = Keeps-bind (query-Keeps sv conn _ λ c. plain c _ stock_of) λ failed.
        Keeps-if failed (Keeps-pure _) (
          Keeps-bind (use_result-Keeps sv conn) λ res.
            Keeps-bind (stock_in_rows-Keeps fuel res (pos 0))
              λ n. Keeps-bind (free_result-Keeps sv res) λ _. Keeps-pure _)

  module _ (plain : (c : ℕ) (t : Bytes) → fr.Plain c t) where
    pub write_order-Keeps :
        (name key : Bytes) (conn : Option ℕ) (n : ℕ)
        → Keeps fr (write_order sv fuel name key conn n)
    unfolding write_order
    write_order-Keeps name key conn n = Keeps-bind (sprintf_200-Keeps sv _) λ update_sql.
        Keeps-bind (query-Keeps sv conn update_sql λ c. plain c _) λ _.
          Keeps-bind (sprintf_200-Keeps sv _) λ insert_sql.
            Keeps-bind (query-Keeps sv conn insert_sql λ c. plain c _) λ _. Keeps-pure _

module _ (sv : Services) (fuel : ℕ) where
  pub check_user_has_got_mysql-IsQuiet :
      (name key : Bytes) (conn : Option ℕ)
      → IsQuiet (check_user_has_got_mysql sv fuel name key conn)
  unfolding check_user_has_got_mysql
  check_user_has_got_mysql-IsQuiet name key conn =
      Keeps-bind (autocommit-IsQuiet sv conn false) λ _. Keeps-bind (sprintf_200-Keeps sv _) λ sql.
        Keeps-bind (query-Keeps sv conn sql λ _. tt) λ failed.
          Keeps-bind
            (Keeps-if failed (Keeps-pure _)
              (Keeps-bind (use_result-Keeps sv conn) λ res. read_orders-Keeps sv fuel res))
            λ got. Keeps-bind (autocommit-IsQuiet sv conn true) λ _. Keeps-pure _
