-- ===== src/Tests/Fake.antt =====
-- A MySQL server and a Redis server of a few lines, for the examples.
use docker_compose_seckill_s.Base.{
  ◌+◌, Bool, true, false, List, [], ◌∷◌, Option, none, some, Bytes, codes, text_eq, to_string, atoi,
  pos, drop, get_or, if◌then◌else◌, ◌==◌, ltb,
}
use docker_compose_seckill_s.Services.{
  Services, Reply, ReplyType, reply_string, reply_status, reply_array, reply_nil, reply_integer,
  Row, Event,
}
use docker_compose_seckill_s.Worker.Stock.{Goods}

pub record Servers : Type 0 where
  pub committed : Goods
  pub mine : Goods
  pub rows : List Row
  pub fields : List Bytes
  pub events : List Event

abbrev pub with_kind : ReplyType → Bytes → Reply
with_kind k t = record { type = k; integer = 3; str = some t; elements = 2 }

-- By the first letter of the statement, and the first column of a SELECT.
unfoldable pub execute : Bytes → Servers → Bool × Servers
execute [] w = (true, w)
execute (c ∷ t) w =
    if c == b'S'
    then (
      false,
      record w {
        rows =
            (some (if get_or t 10 0 == b'k' then codes "k" else to_string w.mine.stock) ∷ []) ∷ [];
      },
    )
    else if c == b'U'
    then elim (atoi (drop 36 t)) [
      | some (pos n) ↦ (false, record w { mine = record (w.mine) { stock = n } })
      | _ ↦ (true, w)
    ]
    else if c == b'I'
    then (false, record w { mine = record (w.mine) { orders = w.mine.orders + 1 } })
    else (true, w)

unfoldable pub next_row : List Row → Servers → Option Row × Servers
next_row [] w = (none, w)
next_row (r ∷ rows) w = (some r, record w { rows = rows })

unfoldable pub next_field : List Bytes → Servers → Option Bytes × Servers
next_field [] w = (none, w)
next_field (f ∷ fields) w = (some f, record w { fields = fields })

unfoldable pub next_event : List Event → Servers → Option Event × Servers
next_event [] w = (none, w)
next_event (e ∷ events) w = (some e, record w { events = events })

unfoldable pub set_autocommit : Bool → Servers → Servers
set_autocommit true w = record w { committed = w.mine }
set_autocommit false w = record w { mine = w.committed }

-- On the connection 8 every commit fails.
unfoldable pub commit_on : Bool → Servers → Bool × Servers
commit_on true w = (true, record w { mine = w.committed })
commit_on false w = (false, record w { committed = w.mine })

-- Every user has the key "k", and 5 items are left in Redis.
unfoldable pub redis_reply : Bytes → Reply
redis_reply format =
    if text_eq format (codes "HGET usr_info %s")
    then with_kind reply_string (codes "k")
    else if text_eq format (codes "GET %s")
    then with_kind reply_string (codes "5")
    else if text_eq format (codes "HGET order_info %s")
    then with_kind reply_nil []
    else if text_eq format (codes "EXEC")
    then with_kind reply_array []
    else if text_eq format (codes "llen %s")
    then with_kind reply_integer []
    else with_kind reply_status (codes "ok")

abbrev pub servers : Services
servers = record {
  World = Servers;
  redis_connect = λ host port w. (some (1, false), w);
  redis_command = λ conn format args w. (some (redis_reply format), w);
  redis_free = λ conn w. w;
  mysql_init = λ w. (some 1, w);
  mysql_real_connect = λ conn target w. (true, w);
  mysql_ping = λ conn w. (ltb 8 conn, w);
  mysql_close = λ conn w. w;
  mysql_query = λ conn t w. execute t w;
  mysql_use_result = λ conn w. (some 0, w);
  mysql_store_result = λ conn w. (some 0, w);
  mysql_fetch_row = λ res w. next_row w.rows w;
  mysql_fetch_field = λ res w. next_field w.fields w;
  mysql_num_fields = λ res w. 1;
  mysql_free_result = λ res w. w;
  mysql_autocommit = λ conn on w. set_autocommit on w;
  mysql_commit = λ conn w. commit_on (ltb 7 conn) w;
  mysql_rollback = λ conn w. record w { mine = w.committed };
  request_seckill = λ tag w. w;
  finish = λ tag result w. w;
  cq_next = λ w. next_event w.events w;
}
