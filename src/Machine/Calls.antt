-- ===== src/Machine/Calls.antt =====
-- The calls that Worker.cc and seckill_server.cc make on the client libraries and on C's. A
-- NULL connection or result that is handed to a client library, or a NULL text to C's, faults:
-- their contracts ask for valid pointers.
use docker_compose_seckill_s.Base.{
  ℕ, zero, suc, ◌+◌, Bool, true, false, List, [], ◌∷◌, Option, none, some, Bytes, codes,
  if◌then◌else◌, ltb, leb, length, int_max, ℤ, atoi, same_ignoring_case, c_str,
}
use docker_compose_seckill_s.Services.{Services, Reply, ReplyType, reply_status, Row}
use docker_compose_seckill_s.Machine.Monad.{
  null_pointer, bad_index, buffer_overflow, int_overflow, deadlock, done, fault, M, pure, raise,
  ◌>>=◌, modify,
}
use docker_compose_seckill_s.MysqlPool
use docker_compose_seckill_s.RedisPool

abbrev pub replies_in : Option Reply → ℕ
replies_in none = 0
replies_in (some r) = 1

module _ (sv : Services) where
  -- Reads a C text through a pointer.
  unfoldable pub deref : Option Bytes → M sv Bytes
  deref none = raise null_pointer
  deref (some t) = pure (c_str t)

  -- `atoi`; a number out of range is undefined.
  unfoldable pub parsed_int : Option ℤ → M sv ℤ
  parsed_int none = raise int_overflow
  parsed_int (some n) = pure n

  unfoldable pub parse_int : Option Bytes → M sv ℤ
  unfolding deref parsed_int
  parse_int s = do t ← deref s; parsed_int (atoi t)

  -- `sprintf` into a `char[200]`.
  unfoldable pub sprintf_200 : Bytes → M sv Bytes
  sprintf_200 t = if leb (length t + 1) 200 then pure t else raise buffer_overflow

  -- `redisCommand`.
  unfoldable pub command : Option ℕ → Bytes → List Bytes → M sv (Option Reply)
  command none format args m = fault null_pointer
  command (some conn) format args m =
      let (r, w) = sv.redis_command conn format args m.world in
      done r (record m { world = w; replies_made = m.replies_made + replies_in r })

  -- `freeReplyObject` ignores NULL.
  unfoldable pub free_reply : Option Reply → M sv (Unit {0})
  free_reply r = modify λ m. record m { replies_freed = m.replies_freed + replies_in r }

  unfoldable pub status_ok : ReplyType → Option Bytes → M sv Bool
  unfolding deref
  status_ok reply_status s = do t ← deref s; pure (same_ignoring_case t (codes "OK"))
  status_ok _ s = pure false

  -- `r != NULL && r->type == REDIS_REPLY_STATUS && strcasecmp(r->str, "OK") == 0`.
  unfoldable pub is_ok : Option Reply → M sv Bool
  unfolding status_ok
  is_ok none = pure false
  is_ok (some r) = status_ok r.type r.str

  unfoldable pub query : Option ℕ → Bytes → M sv Bool
  query none text m = fault null_pointer
  query (some conn) text m =
      let (failed, w) = sv.mysql_query conn text m.world in done failed (record m { world = w })

  unfoldable pub use_result : Option ℕ → M sv (Option ℕ)
  use_result none m = fault null_pointer
  use_result (some conn) m =
      let (res, w) = sv.mysql_use_result conn m.world in done res (record m { world = w })

  unfoldable pub fetch_row : Option ℕ → M sv (Option Row)
  fetch_row none m = fault null_pointer
  fetch_row (some res) m =
      let (row, w) = sv.mysql_fetch_row res m.world in done row (record m { world = w })

  unfoldable pub num_fields : Option ℕ → M sv ℕ
  num_fields none m = fault null_pointer
  num_fields (some res) m = done (sv.mysql_num_fields res m.world) m

  -- `if (result != NULL) mysql_free_result(result);`
  unfoldable pub free_result : Option ℕ → M sv (Unit {0})
  free_result none m = done tt m
  free_result (some res) m = done tt (record m { world = sv.mysql_free_result res m.world })

  -- `row[i]`.
  unfoldable pub column : Row → ℕ → M sv (Option Bytes)
  column [] i = raise bad_index
  column (t ∷ row) zero = pure t
  column (t ∷ row) (suc i) = column row i

  unfoldable pub autocommit : Option ℕ → Bool → M sv (Unit {0})
  autocommit none on m = fault null_pointer
  autocommit (some conn) on m = done tt (record m { world = sv.mysql_autocommit conn on m.world })

  unfoldable pub commit : Option ℕ → M sv Bool
  commit none m = fault null_pointer
  commit (some conn) m =
      let (failed, w) = sv.mysql_commit conn m.world in done failed (record m { world = w })

  unfoldable pub rollback : Option ℕ → M sv (Unit {0})
  rollback none m = fault null_pointer
  rollback (some conn) m = done tt (record m { world = sv.mysql_rollback conn m.world })

  -- `pthread_rwlock_wrlock` and `pthread_rwlock_unlock` on the lock of `failedCount_`.
  unfoldable pub write_lock : M sv (Unit {0})
  write_lock m =
      if m.write_locked then fault deadlock else done tt (record m { write_locked = true })

  unfoldable pub unlock : M sv (Unit {0})
  unlock = modify λ m. record m { write_locked = false }

  -- `response_.set_result`.
  unfoldable pub set_result : Bytes → M sv (Unit {0})
  set_result t = modify λ m. record m { self = record (m.self) { response = t } }

  -- `++ *failedCount_` and `++ *successNum_` on an `int`.
  unfoldable pub count_failure : M sv (Unit {0})
  count_failure m =
      if ltb m.failed_count int_max
      then done tt (record m { failed_count = m.failed_count + 1 })
      else fault int_overflow

  unfoldable pub count_success : M sv (Unit {0})
  count_success m =
      if ltb m.success_num int_max
      then done tt (record m { success_num = m.success_num + 1 })
      else fault int_overflow

  -- `redis_->getOneConnect()` and so on, on the pools in the state.
  unfoldable pub redis_connect : M sv (Option ℕ)
  redis_connect m =
      let (conn, p, w) = RedisPool.get_one_connect sv m.redis m.world in
      done conn (record m { redis = p; world = w })

  unfoldable pub mysql_connect : M sv (Option ℕ)
  mysql_connect m =
      let (conn, p, w) = MysqlPool.get_one_connect sv m.mysql m.world in
      done conn (record m { mysql = p; world = w })

  unfoldable pub redis_close : Option ℕ → M sv (Unit {0})
  redis_close conn = modify λ m. record m { redis = RedisPool.close conn m.redis }

  unfoldable pub mysql_close : Option ℕ → M sv (Unit {0})
  mysql_close conn = modify λ m. record m { mysql = MysqlPool.close conn m.mysql }
