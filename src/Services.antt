-- ===== src/Services.antt =====
-- What the sources call and do not contain: hiredis, the MySQL client, gRPC's completion queue.
-- A value of `Services` stands for these libraries and for the servers behind them; every
-- definition that calls them takes one. A handle is a number; a pointer that may be NULL is an
-- `Option`.
use docker_compose_seckill_s.Base.{ℕ, Bool, List, Option, Bytes}

-- `redisReply::type`, as far as the sources tell types apart.
pub data ReplyType : Type 0 where
  reply_string reply_array reply_integer reply_nil reply_status reply_error : ReplyType

-- `redisReply`: `str` may be NULL.
pub record Reply : Type 0 where
  pub type : ReplyType
  pub integer : ℕ
  pub str : Option Bytes
  pub elements : ℕ

-- `MYSQL_ROW`: a column may be NULL.
abbrev pub Row : Type 0
Row = List (Option Bytes)

-- The arguments of `setParameter` that are handed to the client libraries.
pub record Target : Type 0 where
  pub host : Bytes
  pub user : Bytes
  pub password : Bytes
  pub database : Bytes
  pub port : ℕ

pub record Request : Type 0 where
  pub usrname : Bytes
  pub usrkey : Bytes

-- What `CompletionQueue::Next` returns: a tag, `ok`, and the request, if the event brings one.
pub record Event : Type 0 where
  pub tag : ℕ
  pub ok : Bool
  pub arrived : Option Request

pub record Services : Type 1 where
  pub World : Type 0
  -- The context, if memory was found for it, and whether its `err` is set.
  pub redis_connect : Bytes → ℕ → World → Option (ℕ × Bool) × World
  pub redis_command : ℕ → Bytes → List Bytes → World → Option Reply × World
  pub redis_free : ℕ → World → World
  pub mysql_init : World → Option ℕ × World
  pub mysql_real_connect : ℕ → Target → World → Bool × World
  -- `true` stands for a result other than 0, which means failure.
  pub mysql_ping : ℕ → World → Bool × World
  pub mysql_close : ℕ → World → World
  pub mysql_query : ℕ → Bytes → World → Bool × World
  pub mysql_use_result : ℕ → World → Option ℕ × World
  pub mysql_store_result : ℕ → World → Option ℕ × World
  pub mysql_fetch_row : ℕ → World → Option Row × World
  pub mysql_fetch_field : ℕ → World → Option Bytes × World
  pub mysql_num_fields : ℕ → World → ℕ
  pub mysql_free_result : ℕ → World → World
  pub mysql_autocommit : ℕ → Bool → World → World
  pub mysql_commit : ℕ → World → Bool × World
  pub mysql_rollback : ℕ → World → World
  -- `Requestseckill` and `Finish`, with the worker as their tag.
  pub request_seckill : ℕ → World → World
  pub finish : ℕ → Bytes → World → World
  pub cq_next : World → Option Event × World
