-- ===== src/MysqlPool/Queue.antt =====
-- GRPC/src/mysqlpool.cc: `poolFront`, `poolSize`, `poolPop`, and the loops of `getOneConnect` and
-- of the destructor as they are written with them.
use docker_compose_seckill_s.Base.{
  false, ℕ, zero, suc, ◌%◌, ◌-◌, ◌≤◌, ap, ◌∙◌, ◌++◌, ◌<◌, ◌≡◌, refl, List, [], ◌∷◌, Option, none,
  some, length, front, popped, suc_in_word, Bool-cases, inl, inr, if◌then◌else◌, ◌==◌, arith,
}
use docker_compose_seckill_s.Services.{Services}
use docker_compose_seckill_s.MysqlPool.Ping.{AllDead, count_down, drop_dead_through}
use docker_compose_seckill_s.MysqlPool.{
  MysqlPool, uint_mod, decrement, is_empty, drop_dead, close_all, destroy,
}

-- The front of an empty queue is undefined: `none`.
pub pool_front : MysqlPool → Option ℕ
pool_front p = front p.mysqlpool

pub pool_pop : MysqlPool → MysqlPool
pool_pop p = record p { mysqlpool = popped p.mysqlpool }

-- `unsigned int`.
pub pool_size : MysqlPool → ℕ
pool_size p = length p.mysqlpool % uint_mod

-- `poolPop(); connect_count--;`
abbrev drop_front : MysqlPool → MysqlPool
drop_front p = record p {
  mysqlpool = popped p.mysqlpool;
  connect_count = decrement p.connect_count;
}

module _ (sv : Services) where
  -- `while (!isEmpty() && mysql_ping(poolFront()))`; the first argument bounds the tests.
  pub ping_loop : ℕ → MysqlPool → sv.World → Option (MysqlPool × sv.World)
  unfolding pool_front
  ping_loop zero p w = none
  ping_loop (suc n) p w = if is_empty p.mysqlpool then some (p, w) else elim (pool_front p) [
    | none ↦ none
    | some c ↦
        let (dead, w') = sv.mysql_ping c w in
        let rest = ping_loop n (drop_front p) (sv.mysql_close c w') in
        if dead then rest else some (p, w')
  ]

  -- `while (poolSize() != 0)` in the destructor.
  pub destroy_loop : ℕ → MysqlPool → sv.World → Option (MysqlPool × sv.World)
  unfolding pool_front pool_size
  destroy_loop zero p w = none
  destroy_loop (suc n) p w = if pool_size p == 0 then some (p, w) else elim (pool_front p) [
    | none ↦ none
    | some c ↦ destroy_loop n (drop_front p) (sv.mysql_close c w)
  ]

  -- What the loop of `getOneConnect` leaves of a pool.
  abbrev pub dropped : List ℕ → MysqlPool → sv.World → MysqlPool × sv.World
  dropped q p w =
      let (q', count, w') = drop_dead sv q p.connect_count w in
      (record p { mysqlpool = q'; connect_count = count }, w')

  ping_loop-dropped :
      (n : ℕ) (q : List ℕ) (p : MysqlPool) (w : sv.World)
      → length q < n
      → ping_loop n (record p { mysqlpool = q }) w ≡ some (dropped q p w)
  unfolding ping_loop drop_dead is_empty
  ping_loop-dropped zero q p w h = absurd (omega arith)
  ping_loop-dropped (suc n) [] p w h = refl
  ping_loop-dropped (suc n) (c ∷ q) p w h = elim (Bool-cases (sv.mysql_ping c w).0) [
    | inl e ↦ rw e (
        ping_loop-dropped n q (record p { connect_count = decrement p.connect_count }) _
          (omega (arith, h)))
    | inr e ↦ rw e refl
  ]

  -- The loop of `getOneConnect` needs one test more than there are connections in the queue, and
  -- then has dropped the dead ones at the front, with the count and the world that go with it.
  pub ping_loop-drop_dead :
      (n : ℕ) (p : MysqlPool) (w : sv.World)
      → length p.mysqlpool < n
      → ping_loop n p w ≡ some (dropped p.mysqlpool p w)
  ping_loop-drop_dead n p w h = ping_loop-dropped n p.mysqlpool p w h

  -- What the loop finds behind the dead connections: nothing, or one that answers a ping.
  abbrev pub StopsAt : List ℕ → sv.World → sv.World → Type 0
  StopsAt [] w w' = ◌≡◌ {A = sv.World} w w'
  StopsAt (c ∷ q) w w' = ((sv.mysql_ping c w).0 ≡ false) × ((sv.mysql_ping c w).1 ≡ w')

  drop_dead_stops :
      (q : List ℕ) (count : ℕ) (w w' : sv.World)
      → StopsAt q w w'
      → drop_dead sv q count w ≡ (q, count, w')
  unfolding drop_dead
  drop_dead_stops [] count w w' e = ap (λ x. ([], count, x)) e
  drop_dead_stops (c ∷ q) count w w' (alive, e) = rw (alive, e) refl

  count_down_lem :
      (dead : List ℕ) (count : ℕ)
      → length dead ≤ count
      → count < uint_mod
      → count_down sv dead count ≡ count - length dead
  count_down_lem [] count h small = omega arith
  count_down_lem (c ∷ dead) count h small =
      count_down_lem dead (decrement count) (omega (arith, h, small)) (omega (arith, h, small))
      ∙ omega (arith, h, small)

  -- The loop of `getOneConnect` ends after one test more than there are connections in the queue.
  -- It has then closed the dead ones at the front and taken each off the count, and left the
  -- others, of which the first one answered a ping.
  pub ping_loop_ends :
      (n : ℕ) (dead rest : List ℕ) (p : MysqlPool) (w w1 w2 : sv.World)
      → length p.mysqlpool < n
      → p.mysqlpool ≡ dead ++ rest
      → AllDead sv dead w w1
      → StopsAt rest w1 w2
      → length dead ≤ p.connect_count
      → p.connect_count < uint_mod
      → ping_loop n p w
        ≡ some (record p { mysqlpool = rest; connect_count = p.connect_count - length dead }, w2)
  ping_loop_ends n dead rest p w w1 w2 h e ds stops counted small =
      ping_loop-drop_dead n p w h
      ∙ ap (λ t. some (record p { mysqlpool = t.0; connect_count = t.1 }, t.2))
          (ap (λ q. drop_dead sv q p.connect_count w) e
            ∙ drop_dead_through sv dead rest p.connect_count w w1 ds
            ∙ drop_dead_stops rest (count_down sv dead p.connect_count) w1 w2 stops
            ∙ ap (λ k. (rest, k, w2)) (count_down_lem dead p.connect_count counted small))

  abbrev closed : List ℕ → MysqlPool → sv.World → MysqlPool × sv.World
  closed q p w =
      let (count, w') = close_all sv q p.connect_count w in
      (record p { mysqlpool = []; connect_count = count }, w')

  destroy_loop-closed :
      (n : ℕ) (q : List ℕ) (p : MysqlPool) (w : sv.World)
      → length q < n
      → length q < uint_mod
      → destroy_loop n (record p { mysqlpool = q }) w ≡ some (closed q p w)
  unfolding destroy_loop destroy
  destroy_loop-closed zero q p w h few = absurd (omega arith)
  destroy_loop-closed (suc n) [] p w h few = refl
  destroy_loop-closed (suc n) (c ∷ q) p w h few = rw (suc_in_word (length q) few) (
      destroy_loop-closed n q (record p { connect_count = decrement p.connect_count }) _
        (omega (arith, h)) (omega (arith, few)))

  -- For fewer than 2^32 idle connections the loop of the destructor ends, and it closes them all.
  pub destroy_loop-destroy :
      (n : ℕ) (p : MysqlPool) (w : sv.World)
      → length p.mysqlpool < n
      → length p.mysqlpool < uint_mod
      → destroy_loop n p w ≡ some (destroy sv p w)
  unfolding destroy
  destroy_loop-destroy n p w h few = destroy_loop-closed n p.mysqlpool p w h few
