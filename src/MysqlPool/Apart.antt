-- ===== src/MysqlPool/Apart.antt =====
-- GRPC/src/mysqlpool.cc: what `getOneConnect` does to the world is what the client library's
-- calls do.
use docker_compose_seckill_s.Base.{
  ℕ, List, [], ◌∷◌, Option, none, some, ◌≡◌, refl, ◌∙◌, Bool-cases, inl, inr, ltb,
}
use docker_compose_seckill_s.Services.{Services, Target}
use docker_compose_seckill_s.MysqlPool.{
  MysqlPool, create_one_connect, drop_dead, connect_below_limit, take_front, get_one_connect,
  decrement, is_empty, connect_initialised,
}

-- Something in the world that the calls on connections leave alone.
pub record IsApart (sv : Services) {X : Type 0} (f : sv.World → X) : Type 0 where
  pub init : (w : sv.World) → f (sv.mysql_init w).1 ≡ f w
  pub connect : (conn : ℕ) (t : Target) (w : sv.World) → f (sv.mysql_real_connect conn t w).1 ≡ f w
  pub ping : (conn : ℕ) (w : sv.World) → f (sv.mysql_ping conn w).1 ≡ f w
  pub closed : (conn : ℕ) (w : sv.World) → f (sv.mysql_close conn w) ≡ f w

module _ (sv : Services) {X : Type 0} (f : sv.World → X) (apart : IsApart sv f) where
  connect_initialised-keeps :
      (conn : Option ℕ) (p : MysqlPool) (w : sv.World) → f (connect_initialised sv conn p w).2 ≡ f w
  unfolding connect_initialised
  connect_initialised-keeps none p w = refl
  connect_initialised-keeps (some conn) p w =
      elim (Bool-cases (sv.mysql_real_connect conn p.target w).0) [
        | inl e ↦ rw e (apart.connect conn p.target w)
        | inr e ↦ rw e (apart.connect conn p.target w)
      ]

  connect_below_limit-keeps :
      (p : MysqlPool) (w : sv.World) → f (connect_below_limit sv p w).2 ≡ f w
  unfolding connect_below_limit create_one_connect
  connect_below_limit-keeps p w = elim (Bool-cases (ltb p.connect_count p.max_connect)) [
    | inl e ↦ rw e (connect_initialised-keeps _ p _ ∙ apart.init w)
    | inr e ↦ rw e refl
  ]

  drop_dead-keeps : (q : List ℕ) (count : ℕ) (w : sv.World) → f (drop_dead sv q count w).2 ≡ f w
  unfolding drop_dead
  drop_dead-keeps [] count w = refl
  drop_dead-keeps (c ∷ q) count w = elim (Bool-cases (sv.mysql_ping c w).0) [
    | inl e ↦ rw e (drop_dead-keeps q (decrement count) _ ∙ apart.closed c _ ∙ apart.ping c w)
    | inr e ↦ rw e (apart.ping c w)
  ]

  take_front-keeps : (q : List ℕ) (p : MysqlPool) (w : sv.World) → f (take_front sv q p w).2 ≡ f w
  unfolding take_front
  take_front-keeps [] p w = connect_below_limit-keeps _ w
  take_front-keeps (c ∷ q) p w = refl

  pub get_one_connect-keeps : (p : MysqlPool) (w : sv.World) → f (get_one_connect sv p w).2 ≡ f w
  unfolding get_one_connect
  get_one_connect-keeps p w = elim (Bool-cases (is_empty p.mysqlpool)) [
    | inl e ↦ rw e (connect_below_limit-keeps p w)
    | inr e ↦
        let (q, count, w') = drop_dead sv p.mysqlpool p.connect_count w in
        rw e (
          take_front-keeps q (record p { connect_count = count }) w'
          ∙ drop_dead-keeps p.mysqlpool p.connect_count w)
  ]
