-- ===== src/MysqlPool.antt =====
-- GRPC/src/mysqlpool.cc and mysqlpool.h: the pool of MySQL connections. `poollock` makes each
-- of the public methods one step, so a method is a function on the pool and the world.
pub mod Limit
pub mod Ping
pub mod Singleton
pub mod Apart
pub mod Queue
use docker_compose_seckill_s.Base.{
  ℕ, ◌+◌, ◌-◌, ◌%◌, ◌^◌, ◌∷◌, [], ◌++◌, List, Option, none, some, Bool, true, false, ltb,
  if◌then◌else◌,
}
use docker_compose_seckill_s.Services.{Services, Target}

-- `unsigned int` wraps.
abbrev pub uint_mod : ℕ
uint_mod = 2 ^ 32

abbrev pub increment : ℕ → ℕ
increment c = (c + 1) % uint_mod

abbrev pub decrement : ℕ → ℕ
decrement c = (c + (uint_mod - 1)) % uint_mod

pub record MysqlPool : Type 0 where
  pub target : Target
  pub max_connect : ℕ
  pub connect_count : ℕ
  -- The head of the list is the front of the queue.
  pub mysqlpool : List ℕ

-- `setParameter` keeps what the queue holds.
unfoldable pub set_parameter : Target → ℕ → MysqlPool → MysqlPool
set_parameter target max_connect p = record p {
  target = target;
  max_connect = max_connect;
  connect_count = 0;
}

unfoldable pub is_empty : List ℕ → Bool
is_empty [] = true
is_empty (c ∷ q) = false

module _ (sv : Services) where
  open sv use {World, mysql_init, mysql_real_connect, mysql_ping, mysql_close}

  connect_initialised : Option ℕ → MysqlPool → World → Option ℕ × MysqlPool × World
  connect_initialised none p w = (none, p, w)
  connect_initialised (some conn) p w =
      let (connected, w') = mysql_real_connect conn p.target w in
      if connected
      then (some conn, record p { connect_count = increment p.connect_count }, w')
      else (none, p, w')

  pub create_one_connect : MysqlPool → World → Option ℕ × MysqlPool × World
  unfolding connect_initialised
  create_one_connect p w = let (conn, w') = mysql_init w in connect_initialised conn p w'

  -- The loop of `getOneConnect`: closes connections at the front until one answers a ping. It
  -- returns the queue that is left, the new count and the world.
  unfoldable pub drop_dead : List ℕ → ℕ → World → List ℕ × ℕ × World
  drop_dead [] count w = ([], count, w)
  drop_dead (c ∷ q) count w =
      let (dead, w') = mysql_ping c w in
      let rest = drop_dead q (decrement count) (mysql_close c w') in
      if dead then rest else (c ∷ q, count, w')

  pub connect_below_limit : MysqlPool → World → Option ℕ × MysqlPool × World
  connect_below_limit p w =
      if ltb p.connect_count p.max_connect then create_one_connect p w else (none, p, w)

  -- The second test of `isEmpty`, after the loop.
  unfoldable pub take_front : List ℕ → MysqlPool → World → Option ℕ × MysqlPool × World
  unfolding connect_below_limit
  take_front [] p w = connect_below_limit (record p { mysqlpool = [] }) w
  take_front (c ∷ q) p w = (some c, record p { mysqlpool = q }, w)

  unfoldable pub get_one_connect : MysqlPool → World → Option ℕ × MysqlPool × World
  unfolding take_front
  get_one_connect p w =
      if is_empty p.mysqlpool
      then connect_below_limit p w
      else (let (q, count, w') = drop_dead p.mysqlpool p.connect_count w in
          take_front q (record p { connect_count = count }) w')

  -- The loop of the destructor.
  close_all : List ℕ → ℕ → World → ℕ × World
  close_all [] count w = (count, w)
  close_all (c ∷ q) count w = close_all q (decrement count) (mysql_close c w)

  pub destroy : MysqlPool → World → MysqlPool × World
  unfolding close_all
  destroy p w =
      let (count, w') = close_all p.mysqlpool p.connect_count w in
      (record p { mysqlpool = []; connect_count = count }, w')

-- `close`: NULL is ignored.
unfoldable pub close : Option ℕ → MysqlPool → MysqlPool
close none p = p
close (some conn) p = record p { mysqlpool = p.mysqlpool ++ conn ∷ [] }
