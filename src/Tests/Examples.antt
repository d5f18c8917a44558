-- ===== src/Tests/Examples.antt =====
-- The theorems at concrete inputs, and runs of the model.
use docker_compose_seckill_s.Base.{
  true, atoi, to_string, ℕ, ◌+◌, ◌≤◌, ◌≡◌, refl, false, List, [], ◌∷◌, none, some, codes, length,
  c_str, arith,
}
use docker_compose_seckill_s.Services.{Target, Event}
use docker_compose_seckill_s.Machine.{Machine, Worker, process}
use docker_compose_seckill_s.Machine.Quiet.{books, Ensures}
use docker_compose_seckill_s.Machine.Returns.{Returns}
use docker_compose_seckill_s.MysqlPool
use docker_compose_seckill_s.MysqlPool.{MysqlPool}
use docker_compose_seckill_s.MysqlPool.Limit.{Session, gets, gives, run, run-limit}
use docker_compose_seckill_s.MysqlPool.Ping.{get_one_connect_alive, get_one_connect-AllDead}
use docker_compose_seckill_s.RedisPool
use docker_compose_seckill_s.RedisPool.{RedisPool}
use docker_compose_seckill_s.RedisPool.Limit.{get_many, get_many_unlimited, destroy_wraps}
use docker_compose_seckill_s.Worker.Order.{
  insert_order, update_stock, read_stock, write_order, end_order, stock_in_row, stock_in_rows,
  seckill_goods_mysql,
}
use docker_compose_seckill_s.Machine.Calls.{
  autocommit, query, use_result, fetch_row, num_fields, column, parse_int, deref, parsed_int,
  free_result, sprintf_200, set_result, count_success, commit,
}
use docker_compose_seckill_s.Worker.Proceed.{update, answer, proceed}
use docker_compose_seckill_s.Worker.Verdict.{Verdict}
use docker_compose_seckill_s.Worker.Answer.{answer-Verdict}
use docker_compose_seckill_s.Worker.Life.{IsAlive, proceed-IsAlive}
use docker_compose_seckill_s.Worker.Stock.{RowsOf}
use docker_compose_seckill_s.Worker.Trade.{Trade, seckill_goods_mysql-Trade}
use docker_compose_seckill_s.Worker.Trade.Balance.{
  Purchase, purchases, Balanced, purchases-Balanced,
}
use docker_compose_seckill_s.Tests.Fake.{
  Servers, servers, execute, commit_on, set_autocommit, next_row,
}
use docker_compose_seckill_s.Tests.Goods.{servers-GoodsDb}

abbrev pub target : Target
target = record { host = []; user = []; password = []; database = []; port = 0 }

abbrev pub mysql_pool : List ℕ → MysqlPool
mysql_pool q = record { target = target; max_connect = 3; connect_count = length q; mysqlpool = q }

abbrev pub redis_pool : RedisPool
redis_pool = record {
  host = [];
  port = 0;
  max_connect = 3;
  connect_count = 0;
  redispool = 1 ∷ 2 ∷ [];
}

abbrev pub two_left : Servers
two_left = record {
  committed = record { stock = 2; orders = 0 };
  mine = record { stock = 0; orders = 0 };
  rows = [];
  fields = [];
  events = [];
}

abbrev pub waiting : Worker
waiting = record {
  status = process;
  request = record { usrname = codes "1"; usrkey = codes "k" };
  response = [];
}

abbrev pub shop : Machine servers
shop = record {
  world = two_left;
  mysql = mysql_pool (7 ∷ []);
  redis = redis_pool;
  failed_count = 0;
  success_num = 0;
  write_locked = false;
  replies_made = 0;
  replies_freed = 0;
  workers = update (λ _. none) 0 (some waiting);
  next_worker = 1;
  self = waiting;
}

pub shop-IsAlive : IsAlive (books shop)
shop-IsAlive = record {
  waiting = 0;
  waits = (waiting, refl, refl);
  others = λ i w e ne. absurd (ground arith);
  below = λ i w e. ground arith;
  free = refl;
}

answer-Verdict_example :
    Ensures
      (answer servers 9 (codes "1") (codes "k") (some 1) (some 7))
      shop
      (λ _ m'. Verdict (books shop) (books m'))
answer-Verdict_example =
    answer-Verdict servers 9 (codes "1") (codes "k") (some 1) (some 7) shop refl

proceed-IsAlive_example : Ensures (proceed servers 9 0) shop (λ _ m'. IsAlive (books m'))
proceed-IsAlive_example = proceed-IsAlive servers 9 0 shop shop-IsAlive

-- Two items on sale, and three requests in the queue.
abbrev pub arriving : ℕ → Event
arriving n = record {
  tag = n;
  ok = true;
  arrived = some (record { usrname = codes "1"; usrkey = codes "k" });
}

abbrev pub opening : Machine servers
opening = record shop {
  workers = λ i. none;
  world = record two_left { events = arriving 1 ∷ arriving 2 ∷ arriving 3 ∷ [] };
}

seckill_goods_mysql-Trade_example :
    Returns
      (seckill_goods_mysql servers 9 (codes "1") (codes "k") (some 7))
      shop
      (λ _ m'. Trade servers-GoodsDb (RowsOf (codes "1") (codes "k")) shop m')
unfolding insert_order c_str servers-GoodsDb
seckill_goods_mysql-Trade_example =
    seckill_goods_mysql-Trade servers-GoodsDb 7 9 (codes "1") (codes "k") shop (omega arith)
      (omega arith) (omega arith) (omega arith) (omega arith) refl

-- A failed commit is answered like a sale.
commit_lost : Returns (seckill_goods_mysql servers 9 (codes "1") (codes "k") (some 8)) shop (λ _ m'.
    (m'.self.response ≡ codes "1")
    × (m'.success_num ≡ shop.success_num + 1)
    × (m'.world.committed ≡ two_left.committed))
unfolding seckill_goods_mysql read_stock write_order end_order autocommit query use_result
    stock_in_rows stock_in_row fetch_row num_fields column parse_int deref parsed_int free_result
    sprintf_200 set_result count_success commit execute update_stock insert_order commit_on
    set_autocommit next_row c_str atoi to_string
commit_lost = record { apply = (refl, refl, refl) }

abbrev three_orders : List Purchase
three_orders =
    record { name = codes "1"; key = codes "k"; conn = 7 }
    ∷ record { name = codes "2"; key = codes "k"; conn = 6 }
    ∷ record { name = codes "3"; key = codes "k"; conn = 7 }
    ∷ []

purchases-Balanced_example :
    Returns (purchases servers 9 three_orders) shop (λ _ m'. Balanced servers-GoodsDb 9 shop m')
unfolding insert_order c_str servers-GoodsDb
purchases-Balanced_example =
    purchases-Balanced servers-GoodsDb 9 three_orders shop (omega arith)
      (omega arith, refl, refl, (omega arith, refl, refl, (omega arith, refl, refl, tt)))
      (omega arith) (omega arith) (omega arith) refl

abbrev empty_session : Session servers
empty_session = record { pool = mysql_pool []; held = []; world = two_left }

run-limit_example :
    let t = run servers (gets ∷ gets ∷ gives ∷ gets ∷ gets ∷ gets ∷ []) empty_session in
    (t.pool.connect_count ≡ length t.pool.mysqlpool + length t.held)
    × (length t.pool.mysqlpool + length t.held ≤ t.pool.max_connect)
run-limit_example =
    run-limit servers (gets ∷ gets ∷ gives ∷ gets ∷ gets ∷ gets ∷ []) empty_session refl refl refl
      (omega arith)

get_one_connect_alive_example :
    MysqlPool.get_one_connect servers (mysql_pool (9 ∷ 10 ∷ 4 ∷ 5 ∷ [])) two_left
    ≡ (some 4, record (mysql_pool (5 ∷ [])) { connect_count = 2 }, two_left)
get_one_connect_alive_example =
    get_one_connect_alive servers (9 ∷ 10 ∷ []) 4 (5 ∷ []) (mysql_pool (9 ∷ 10 ∷ 4 ∷ 5 ∷ []))
      two_left two_left refl (refl, (refl, refl)) refl

get_one_connect-AllDead_example :
    MysqlPool.get_one_connect servers (mysql_pool (9 ∷ 10 ∷ [])) two_left
    ≡ MysqlPool.create_one_connect servers (record (mysql_pool []) { connect_count = 0 }) two_left
get_one_connect-AllDead_example =
    get_one_connect-AllDead servers 9 (10 ∷ []) (mysql_pool (9 ∷ 10 ∷ [])) two_left two_left refl
      (refl, (refl, refl))

get_many_unlimited_example :
    let (held', p', w') = get_many servers 700 [] (record redis_pool { redispool = [] }) two_left in
    (length held' ≡ 700 + 0) × (p'.connect_count ≡ 0)
get_many_unlimited_example =
    get_many_unlimited servers 700 [] (record redis_pool { redispool = [] }) two_left
      (λ w. (1, refl)) refl (omega arith)

destroy_wraps_example :
    ((RedisPool.destroy servers redis_pool two_left).0.connect_count ≡ 4_294_967_294)
    × ((RedisPool.destroy servers redis_pool two_left).0.redispool ≡ [])
destroy_wraps_example = destroy_wraps servers redis_pool two_left refl (omega arith) (omega arith)
