-- ===== src/Worker/Check.antt =====
-- GRPC/src/Worker.cc: `checkUserInfo` and `checkUserHasGot`, over Redis or over MySQL. `fuel`
-- bounds the rows that a loop reads.
use docker_compose_seckill_s.Base.{
  ℕ, zero, suc, Bool, true, false, ◌&&◌, [], ◌∷◌, ◌++◌, Option, none, some, Bytes, codes, c_str,
  text_eq, if◌then◌else◌, ltb,
}
use docker_compose_seckill_s.Services.{Services, Reply, ReplyType, reply_string, Row}
use docker_compose_seckill_s.Machine.{M, pure, raise, ◌>>=◌, ◌>>◌, out_of_rows}
use docker_compose_seckill_s.Machine.Calls.{
  deref, sprintf_200, command, free_reply, query, use_result, fetch_row, num_fields, free_result,
  column, autocommit,
}

abbrev pub is_string : ReplyType → Bool
is_string reply_string = true
is_string _ = false

-- The text of the query that looks for a user's key.
unfoldable pub select_key : Bytes → Bytes
select_key usr_name =
    codes "SELECT usr_key FROM usr_info WHERE usr_name ='" ++ c_str usr_name ++ codes "'"

unfoldable pub select_order : Bytes → Bytes
select_order usr_name =
    codes "SELECT * FROM order_info WHERE usr_name ='" ++ c_str usr_name ++ codes "' FOR UPDATE"

module _ (sv : Services) (fuel : ℕ) where
  unfoldable pub key_in_row : Bytes → Option ℕ → Row → Bool → M sv Bool
  key_in_row usr_key res row is_usr = do
    n ← num_fields sv res
    if ltb 0 n
        then (do
          key ← deref sv (← column sv row 0)
          pure (if text_eq key usr_key then true else is_usr))
        else pure is_usr

  -- The rows that are left of a result, one round for each, and one for the end.
  unfoldable pub key_in_rows : ℕ → Bytes → Option ℕ → Bool → M sv Bool
  key_in_rows zero usr_key res is_usr = raise out_of_rows
  key_in_rows (suc rounds) usr_key res is_usr = do
    row ← fetch_row sv res
    elim row [
      | none ↦ pure is_usr
      | some r ↦ key_in_row usr_key res r is_usr >>= key_in_rows rounds usr_key res
    ]

  unfoldable pub check_user_info_mysql : Bytes → Bytes → Option ℕ → M sv Bool
  check_user_info_mysql usr_name usr_key mysqlcon = do
    sel_sql ← sprintf_200 sv (select_key usr_name)
    failed ← query sv mysqlcon sel_sql
    if failed then pure false else (do
      res ← use_result sv mysqlcon
      is_usr ← key_in_rows fuel usr_key res false
      free_result sv res
      pure is_usr)

  -- The stored key is compared; the reply is freed only where it did not match.
  unfoldable pub matches_key : Option Reply → Bytes → M sv Bool
  matches_key none usr_key = pure false
  matches_key (some r) usr_key =
      if is_string r.type then (do key ← deref sv r.str; pure (text_eq usr_key key)) else pure false

  unfoldable pub check_user_info : Bytes → Bytes → Option ℕ → Option ℕ → M sv Bool
  check_user_info usr_name usr_key none mysqlcon = check_user_info_mysql usr_name usr_key mysqlcon
  check_user_info usr_name usr_key (some conn) mysqlcon = do
    reply ← command sv (some conn) (codes "HGET usr_info %s") (c_str usr_name ∷ [])
    matched ← matches_key reply usr_key
    if matched then pure true else (free_reply sv reply >> pure false)

  unfoldable pub order_in_rows : ℕ → Option ℕ → Bool → M sv Bool
  order_in_rows zero res has_got = raise out_of_rows
  order_in_rows (suc rounds) res has_got = do
    row ← fetch_row sv res
    elim row [
      | none ↦ pure has_got
      | some r ↦ do
        n ← num_fields sv res
        order_in_rows rounds res (if ltb 0 n then true else has_got)
    ]

  unfoldable pub check_user_has_got_mysql : Bytes → Bytes → Option ℕ → M sv Bool
  check_user_has_got_mysql usr_name usr_key mysqlcon = do
    autocommit sv mysqlcon false
    sel_sql ← sprintf_200 sv (select_order usr_name)
    failed ← query sv mysqlcon sel_sql
    has_got ← if failed then pure false else (do
      res ← use_result sv mysqlcon
      found ← order_in_rows fuel res false
      free_result sv res
      pure found)
    autocommit sv mysqlcon true
    pure has_got

  unfoldable pub has_text : Option Reply → Bool
  has_text none = false
  has_text (some r) = is_string r.type && elim r.str [ none ↦ false | some t ↦ true ]

  unfoldable pub check_user_has_got : Bytes → Bytes → Option ℕ → Option ℕ → M sv Bool
  check_user_has_got usr_name usr_key none mysqlcon =
      check_user_has_got_mysql usr_name usr_key mysqlcon
  check_user_has_got usr_name usr_key (some conn) mysqlcon = do
    reply ← command sv (some conn) (codes "HGET order_info %s") (c_str usr_name ∷ [])
    if has_text reply then pure true else (free_reply sv reply >> pure false)
