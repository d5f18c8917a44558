-- ===== src/Tests/Serving.antt =====
-- The theorems about the server's loop and the client, at concrete inputs.
use docker_compose_seckill_s.Base.{
  List, ℤ, ℕ, ◌≤◌, ◌≡◌, refl, true, false, [], ◌∷◌, ◌++◌, none, some, codes, text_eq, to_string,
  pos, negsuc, arith,
}
use docker_compose_seckill_s.Services.{Services, Event, reply_integer}
use docker_compose_seckill_s.MysqlPool
use docker_compose_seckill_s.RedisPool
use docker_compose_seckill_s.MysqlPool.Singleton.{run_threads, begin, returns, run_threads_single}
use docker_compose_seckill_s.Machine.{Machine, done, bad_index, fault, use_after_free, null_pointer}
use docker_compose_seckill_s.Machine.Calls.{
  query, fetch_row, free_result, column, mysql_connect, mysql_close,
}
use docker_compose_seckill_s.Machine.Execute.{
  Columns, execute_sql, execute_on, read_columns, push_rows, push_row, field_columns, fetch_field,
  store_result, dangle, insert_column, compare_text,
}
use docker_compose_seckill_s.Machine.Quiet.{books, Ensures}
use docker_compose_seckill_s.Machine.Returns.{Returns}
use docker_compose_seckill_s.Client.Check.{contains_duplicate, orders_normal, find_column}
use docker_compose_seckill_s.Client.Duplicates.{repeats, contains_duplicate-repeats}
use docker_compose_seckill_s.Client.Dangling.{orders_normal-execute_sql}
use docker_compose_seckill_s.Server.Serve.{run, handle_rpcs}
use docker_compose_seckill_s.Server.Loop.{run-IsAlive}
use docker_compose_seckill_s.Server.Gate.{StaysBusy, Waits, handle_rpcs-Waits}
use docker_compose_seckill_s.Server.Prepare.{insert_users}
use docker_compose_seckill_s.Server.Registration.{separate, user_rows, insert_users-eq}
use docker_compose_seckill_s.Worker.Life.{IsAlive}
use docker_compose_seckill_s.Worker.Proceed.{proceed}
use docker_compose_seckill_s.Worker.Stops.{proceed-null_redis}
use docker_compose_seckill_s.Tests.Fake.{
  Servers, servers, execute, next_row, next_field, redis_reply, with_kind,
}
use docker_compose_seckill_s.Tests.Examples.{two_left, shop, opening, waiting, redis_pool}

abbrev three_names : List ℤ
three_names = negsuc 0 ∷ pos 7 ∷ pos 3 ∷ []

contains_duplicate-repeats_example :
    (contains_duplicate servers 9 (pos 3 ∷ three_names) shop
      ≡ done (repeats (pos 3 ∷ three_names)) shop)
    × (contains_duplicate servers 9 [] shop ≡ fault bad_index)
contains_duplicate-repeats_example = contains_duplicate-repeats servers 9 (pos 3) three_names shop

abbrev one_column : Columns
one_column = (codes "usr_name", record { text = some (to_string 0); dangling = true } ∷ []) ∷ []

abbrev with_fields : Machine servers
with_fields = record shop { world = record two_left { fields = codes "usr_name" ∷ [] } }

orders_normal-execute_sql_example :
    orders_normal servers 9 1 (find_column servers 9 (codes "usr_name") one_column) shop
    ≡ fault use_after_free
unfolding execute_sql execute_on read_columns push_rows push_row field_columns fetch_field
    store_result dangle insert_column compare_text query fetch_row free_result column mysql_connect
    mysql_close find_column text_eq execute next_row next_field MysqlPool.get_one_connect
    MysqlPool.take_front MysqlPool.is_empty MysqlPool.drop_dead MysqlPool.close
orders_normal-execute_sql_example =
    orders_normal-execute_sql servers 9 (codes "SELECT usr_name FROM order_info") (codes "usr_name")
      1 one_column (record { text = some (to_string 0); dangling = true }) [] with_fields shop refl
      refl

run-IsAlive_example : Ensures (run servers 9 3) opening (λ _ m'. IsAlive (books m'))
run-IsAlive_example = run-IsAlive servers 9 3 opening (λ i. refl)

-- 49 items are sold, and the event that would shorten `work_list` waits in the queue.
abbrev finished : Event
finished = record { tag = 0; ok = true; arrived = none }

abbrev almost_sold_out : Machine servers
almost_sold_out = record shop {
  success_num = 49;
  world = record two_left { events = finished ∷ [] };
}

abbrev Queued : Servers → Type 0
Queued w = w.events ≡ finished ∷ []

busy : StaysBusy servers 3 Queued
unfolding redis_reply text_eq
busy = record {
  reply = λ conn w. with_kind reply_integer [];
  answers = λ conn w h. refl;
  counts = λ conn w h. refl;
  many = λ conn w h. omega arith;
  fits = λ conn w h. omega arith;
  stays = λ conn w h. h;
}

handle_rpcs-Waits_example :
    Returns
      (handle_rpcs servers 9 1000)
      almost_sold_out
      (λ _ m'. Waits servers 9 3 Queued busy (books almost_sold_out) m')
handle_rpcs-Waits_example =
    handle_rpcs-Waits servers 9 3 Queued busy 1000 (books almost_sold_out) almost_sold_out
      (record { here = refl; same = refl; idle = (1, 2 ∷ [], refl) }) (omega arith) (omega arith)

insert_users-eq_example :
    insert_users (codes "junk")
    ≡ codes "INSERT INTO usr_info(usr_name,usr_key) VALUES "
      ++ separate (user_rows (codes "junk") 1 300)
      ++ separate (user_rows (codes "junk") 301 100)
      ++ codes ","
insert_users-eq_example = insert_users-eq (codes "junk")

-- The same servers, with Redis down.
abbrev without_redis : Services
without_redis = record servers { redis_connect = λ host port w. (none, w) }

abbrev cut_off : Machine without_redis
cut_off = record {
  world = two_left;
  mysql = shop.mysql;
  redis = record redis_pool { redispool = [] };
  failed_count = 0;
  success_num = 0;
  write_locked = false;
  replies_made = 0;
  replies_freed = 0;
  workers = shop.workers;
  next_worker = 1;
  self = waiting;
}

proceed-null_redis_example : proceed without_redis 9 0 cut_off ≡ fault null_pointer
unfolding RedisPool.get_one_connect RedisPool.take_front RedisPool.connect_below_limit
    RedisPool.create_one_connect RedisPool.without_error
proceed-null_redis_example = proceed-null_redis without_redis 9 0 cut_off waiting refl refl refl

-- Three threads, all past the first test before one of them creates the pool.
run_threads_single_example :
    let s = run_threads (0 ∷ 1 ∷ 2 ∷ 1 ∷ 0 ∷ 1 ∷ 1 ∷ 1 ∷ 0 ∷ 0 ∷ 0 ∷ 2 ∷ []) begin in
    (s.created ≤ 1) × ((t : ℕ) → s.place t ≡ returns → s.object ≡ some 0)
run_threads_single_example = run_threads_single (0 ∷ 1 ∷ 2 ∷ 1 ∷ 0 ∷ 1 ∷ 1 ∷ 1 ∷ 0 ∷ 0 ∷ 0 ∷ 2 ∷ [])
