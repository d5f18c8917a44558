-- ===== src/MysqlPool/Ping.antt =====
-- GRPC/src/mysqlpool.cc: which connection `getOneConnect` hands out.
use docker_compose_seckill_s.Base.{
  ℕ, ◌≡◌, refl, ap, List, [], ◌∷◌, ◌++◌, some, none, arith, true, false, ltb, if◌then◌else◌,
}
use mathlib.Core.List.{append-nil}
use docker_compose_seckill_s.Services.{Services}
use docker_compose_seckill_s.MysqlPool.{
  MysqlPool, decrement, drop_dead, take_front, get_one_connect, is_empty, create_one_connect,
  connect_below_limit,
}

module _ (sv : Services) where
  open sv use {World, mysql_ping, mysql_close}

  -- The connections of a list are dead, when they are pinged and closed one after the other
  -- from `w`, and `w'` is the world afterwards.
  abbrev pub AllDead : List ℕ → World → World → Type 0
  AllDead [] w w' = ◌≡◌ {A = World} w w'
  AllDead (c ∷ cs) w w' =
      ((mysql_ping c w).0 ≡ true) × AllDead cs (mysql_close c (mysql_ping c w).1) w'

  -- `count` less one for each entry, as an `unsigned int`.
  abbrev pub count_down : List ℕ → ℕ → ℕ
  count_down [] count = count
  count_down (c ∷ cs) count = count_down cs (decrement count)

  pub drop_dead_through :
      (dead q : List ℕ) (count : ℕ) (w w' : World)
      → AllDead dead w w'
      → drop_dead sv (dead ++ q) count w ≡ drop_dead sv q (count_down dead count) w'
  unfolding drop_dead
  drop_dead_through [] q count w w' e = ap (drop_dead sv q count) e
  drop_dead_through (c ∷ cs) q count w w' (d, ds) =
      rw d (drop_dead_through cs q (decrement count) _ w' ds)

  drop_dead_alive :
      (c : ℕ) (behind : List ℕ) (count : ℕ) (w : World)
      → (mysql_ping c w).0 ≡ false
      → drop_dead sv (c ∷ behind) count w ≡ (c ∷ behind, count, (mysql_ping c w).1)
  unfolding drop_dead
  drop_dead_alive c behind count w alive = rw alive

  is_empty-append :
      (dead : List ℕ) (c : ℕ) (behind : List ℕ) → is_empty (dead ++ c ∷ behind) ≡ false
  unfolding is_empty
  is_empty-append [] c behind = refl
  is_empty-append (d ∷ dead) c behind = refl

  -- `getOneConnect` closes the dead connections at the front of the queue, takes each off the
  -- count, and hands out the first one that answers a ping, with those behind it kept.
  pub get_one_connect_alive :
      (dead : List ℕ) (c : ℕ) (behind : List ℕ) (p : MysqlPool) (w w' : World)
      → p.mysqlpool ≡ dead ++ c ∷ behind
      → AllDead dead w w'
      → (mysql_ping c w').0 ≡ false
      → get_one_connect sv p w ≡ (
        some c,
        record p { connect_count = count_down dead p.connect_count; mysqlpool = behind },
        (mysql_ping c w').1,
      )
  unfolding get_one_connect take_front
  get_one_connect_alive dead c behind p w w' e ds alive = ground (
    arith,
    is_empty-append dead c behind,
    drop_dead_through dead (c ∷ behind) p.connect_count w w' ds,
    drop_dead_alive c behind (count_down dead p.connect_count) w' alive,
  )

  -- With every idle connection dead, all of them are closed and taken off the count; if what is
  -- left of it is below the limit, `createOneConnect` is called, and else nothing is handed out.
  pub get_one_connect-AllDead :
      (c : ℕ) (dead : List ℕ) (p : MysqlPool) (w w' : World)
      → p.mysqlpool ≡ c ∷ dead
      → AllDead (c ∷ dead) w w'
      → let left = count_down (c ∷ dead) p.connect_count in
        let emptied = record p { connect_count = left; mysqlpool = [] } in
        get_one_connect sv p w
        ≡ (if ltb left p.max_connect then create_one_connect sv emptied w' else (none, emptied, w'))
  unfolding get_one_connect take_front is_empty drop_dead connect_below_limit
  get_one_connect-AllDead c dead p w w' e ds =
      ground (arith, append-nil (c ∷ dead), drop_dead_through (c ∷ dead) [] p.connect_count w w' ds)
