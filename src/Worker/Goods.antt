-- ===== src/Worker/Goods.antt =====
-- GRPC/src/Worker.cc: `seckillGoods`, which takes one item from the count in Redis by an
-- optimistic transaction and then orders it from MySQL.
use docker_compose_seckill_s.Base.{
  ℕ, zero, suc, ◌+◌, Bool, true, false, ◌&&◌, [], ◌∷◌, Option, none, some, Bytes, codes, c_str,
  to_string, pos_part, if◌then◌else◌, ltb,
}
use docker_compose_seckill_s.Services.{Services, Reply, ReplyType, reply_array}
use docker_compose_seckill_s.Machine.{
  M, pure, raise, gets, modify, when, ◌>>=◌, ◌>>◌, out_of_passes,
}
use docker_compose_seckill_s.Machine.Calls.{
  parse_int, command, free_reply, is_ok, write_lock, unlock, set_result,
}
use docker_compose_seckill_s.Worker.Order.{seckill_goods_mysql}

-- `RETRYCOUNT`.
abbrev pub retry_count : ℕ
retry_count = 20

abbrev is_array : ReplyType → Bool
is_array reply_array = true
is_array _ = false

-- Whether `EXEC` ran the queued commands: an array of more than one reply.
unfoldable pub executed : Option Reply → Bool
executed none = false
executed (some r) = is_array r.type && ltb 1 r.elements

-- `reply->str` for a reply that was tested not to be NULL.
unfoldable pub text_in : Option Reply → Option Bytes
text_in none = none
text_in (some r) = r.str

unfoldable pub is_some : Option Reply → Bool
is_some none = false
is_some (some r) = true

module _ (sv : Services) (fuel : ℕ) where
  -- The failures become the new count; the record of them is cleared if Redis took it.
  unfoldable pub put_back : Option ℕ → ℕ → M sv (Unit {0})
  put_back conn failed = do
    set_reply ← command sv conn (codes "SET total_count %s") (c_str (to_string failed) ∷ [])
    ok ← is_ok sv set_reply
    when ok (modify λ m. record m { failed_count = 0 })

  -- Nothing is left in Redis: what MySQL refused earlier goes back on sale.
  unfoldable pub restock : Option ℕ → M sv (Unit {0})
  restock conn = do
    write_lock sv
    failed ← gets (λ m. m.failed_count)
    when (ltb 0 failed) (put_back conn failed)
    unlock sv

  unfoldable pub sold_out : Option ℕ → M sv (Unit {0})
  sold_out conn = do command sv conn (codes "UNWATCH") []; restock conn; set_result sv (codes "0")

  -- `retry` is the call of `seckillGoods` with the new count of attempts.
  unfoldable pub try_again : Option ℕ → ℕ → M sv (Unit {0}) → M sv (Unit {0})
  try_again conn repeat_count retry = do
    command sv conn (codes "UNWATCH") []
    if ltb repeat_count retry_count then retry else set_result sv (codes "0")

  unfoldable pub transact :
      Bytes → Bytes → Option ℕ → Option ℕ → ℕ → M sv (Unit {0}) → Option Reply → M sv (Unit {0})
  transact usr_name usr_key conn connection repeat_count retry multi_reply = do
    command sv conn (codes "DECR %s") (codes "total_count" ∷ [])
    command sv conn (codes "HMSET order_info  %s %s") (c_str usr_name ∷ c_str usr_key ∷ [])
    exec_reply ← command sv conn (codes "EXEC") []
    if executed exec_reply
        then (do free_reply sv exec_reply; seckill_goods_mysql sv fuel usr_name usr_key connection)
        else (do
          free_reply sv exec_reply
          try_again conn repeat_count retry
          free_reply sv multi_reply)

  unfoldable pub buy : Bytes → Bytes → Option ℕ → Option ℕ → ℕ → M sv (Unit {0}) → M sv (Unit {0})
  buy usr_name usr_key conn connection repeat_count retry = do
    multi_reply ← command sv conn (codes "MULTI") []
    opened ← is_ok sv multi_reply
    if opened
        then transact usr_name usr_key conn connection repeat_count retry multi_reply
        else (do try_again conn repeat_count retry; free_reply sv multi_reply)

  -- One pass through the body, with the count of attempts raised already.
  unfoldable pub attempt :
      Bytes → Bytes → Option ℕ → Option ℕ → ℕ → M sv (Unit {0}) → M sv (Unit {0})
  attempt usr_name usr_key conn connection repeat_count retry = do
    watch_reply ← command sv conn (codes "WATCH %s") (codes "total_count" ∷ [])
    reply ← command sv conn (codes "GET %s") (codes "total_count" ∷ [])
    watched ← if is_some reply then is_ok sv watch_reply else pure false
    if watched
        then (do
          curr_goods_count ← parse_int sv (text_in reply)
          free_reply sv watch_reply
          free_reply sv reply
          if ltb 0 (pos_part curr_goods_count)
              then buy usr_name usr_key conn connection repeat_count retry
              else sold_out conn)
        else (do free_reply sv watch_reply; free_reply sv reply; set_result sv (codes "0"))

  -- The first argument bounds the passes.
  unfoldable pub seckill_goods : ℕ → Bytes → Bytes → Option ℕ → Option ℕ → ℕ → M sv (Unit {0})
  seckill_goods zero usr_name usr_key redisconn connection repeat_count = raise out_of_passes
  seckill_goods (suc passes) usr_name usr_key redisconn connection repeat_count = elim redisconn [
    | none ↦ seckill_goods_mysql sv fuel usr_name usr_key connection
    | some conn ↦
        attempt usr_name usr_key (some conn) connection (repeat_count + 1)
          (seckill_goods passes usr_name usr_key (some conn) connection (repeat_count + 1))
  ]
