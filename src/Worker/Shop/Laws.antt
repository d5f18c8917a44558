-- ===== src/Worker/Shop/Laws.antt =====
-- What keeps the goods of Worker/Stock.antt apart from the other calls of the process: Redis,
-- the opening and closing of connections, gRPC, and the queries that only read.
use docker_compose_seckill_s.Base.{ℕ, ◌≡◌, Bytes, List}
use docker_compose_seckill_s.Services.{Services}
use docker_compose_seckill_s.MysqlPool.Apart.{IsApart}
use docker_compose_seckill_s.Worker.Check.{select_order}
use docker_compose_seckill_s.Worker.Stock.{GoodsDb}

pub record Apart {sv : Services} (db : GoodsDb sv) : Type 0 where
  -- Redis is another server.
  pub command_keeps :
      (conn : ℕ) (format : Bytes) (args : List Bytes) (w : sv.World)
      → (db.committed (sv.redis_command conn format args w).1 ≡ db.committed w)
        × ((c : ℕ) → db.view c (sv.redis_command conn format args w).1 ≡ db.view c w)
  pub redis_keeps :
      (host : Bytes) (port : ℕ) (w : sv.World)
      → db.committed (sv.redis_connect host port w).1 ≡ db.committed w
  -- Opening, testing and closing a connection commits nothing.
  pub connections : IsApart sv db.committed
  -- Nor does gRPC.
  pub request_keeps :
      (tag : ℕ) (w : sv.World) → db.committed (sv.request_seckill tag w) ≡ db.committed w
  pub finish_keeps :
      (tag : ℕ) (t : Bytes) (w : sv.World) → db.committed (sv.finish tag t w) ≡ db.committed w
  pub next_keeps : (w : sv.World) → db.committed (sv.cq_next w).1 ≡ db.committed w
  -- The SELECT on `order_info` changes what no connection sees.
  pub reads_order :
      (c conn : ℕ) (name : Bytes) (w : sv.World)
      → db.view c (sv.mysql_query conn (select_order name) w).1 ≡ db.view c w
  -- A result that is taken on one connection does not change what another one sees.
  pub use_apart :
      (c conn : ℕ) (w : sv.World) → db.view c (sv.mysql_use_result conn w).1 ≡ db.view c w
