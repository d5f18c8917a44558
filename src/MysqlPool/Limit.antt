-- ===== src/MysqlPool/Limit.antt =====
-- GRPC/src/mysqlpool.cc: what `connect_count` counts, and the limit `MAX_CONNECT`.
use docker_compose_seckill_s.Base.{
  ℕ, suc, ◌+◌, ◌^◌, ◌≤◌, ◌<◌, ◌≡◌, refl, ap, inl, inr, List, [], ◌∷◌, Option, none, some, arith,
  length, length-append, Bool-cases,
}
use docker_compose_seckill_s.Services.{Services}
use docker_compose_seckill_s.MysqlPool.{
  MysqlPool, decrement, create_one_connect, connect_initialised, drop_dead, connect_below_limit,
  take_front, get_one_connect, is_empty, close,
}

-- `connect_count` counts the connections in the queue and the `lent` ones that callers hold.
pub record IsValid (lent : ℕ) (p : MysqlPool) : Type 0 where
  pub counted : p.connect_count ≡ length p.mysqlpool + lent
  pub limited : p.connect_count ≤ p.max_connect
  pub fits : p.max_connect < 2 ^ 32

-- The connections lent after a call that returned `conn`.
abbrev pub lend : ℕ → Option ℕ → ℕ
lend lent none = lent
lend lent (some conn) = suc lent

module _ (sv : Services) where
  open sv use {World}

  create_one_connect-IsValid :
      (lent : ℕ) (p : MysqlPool) (w : World)
      → IsValid lent p
      → p.connect_count < p.max_connect
      → IsValid (lend lent (create_one_connect sv p w).0) (create_one_connect sv p w).1
  unfolding create_one_connect connect_initialised
  create_one_connect-IsValid lent p w v room = ground arith

  connect_below_limit-IsValid :
      (lent : ℕ) (p : MysqlPool) (w : World)
      → IsValid lent p
      → IsValid (lend lent (connect_below_limit sv p w).0) (connect_below_limit sv p w).1
  unfolding connect_below_limit
  connect_below_limit-IsValid lent p w v = ground (arith, create_one_connect-IsValid lent p w v)

  pub drop_dead-count :
      (lent : ℕ) (q : List ℕ) (count : ℕ) (w : World)
      → count ≡ length q + lent
      → count < 2 ^ 32
      → let (q', count', w') = drop_dead sv q count w in
        (count' ≡ length q' + lent) × (count' ≤ count)
  unfolding drop_dead
  drop_dead-count lent [] count w e fits = omega arith
  drop_dead-count lent (c ∷ q) count w e fits =
      ground
        (arith, drop_dead-count lent q (decrement count) (sv.mysql_close c (sv.mysql_ping c w).1))

  take_front-IsValid :
      (lent : ℕ) (q : List ℕ) (p : MysqlPool) (w : World)
      → p.connect_count ≡ length q + lent
      → p.connect_count ≤ p.max_connect
      → p.max_connect < 2 ^ 32
      → IsValid (lend lent (take_front sv q p w).0) (take_front sv q p w).1
  unfolding take_front
  take_front-IsValid lent [] p w e l f =
      connect_below_limit-IsValid lent (record p { mysqlpool = [] }) w (ground arith)
  take_front-IsValid lent (c ∷ q) p w e l f = ground arith

  -- `getOneConnect` keeps the count of connections exact and within the limit, on every path:
  -- an idle connection, dead ones closed on the way, a new one, a failed attempt, a refusal.
  pub get_one_connect-IsValid :
      (lent : ℕ) (p : MysqlPool) (w : World)
      → IsValid lent p
      → IsValid (lend lent (get_one_connect sv p w).0) (get_one_connect sv p w).1
  unfolding get_one_connect
  get_one_connect-IsValid lent p w v = elim (Bool-cases (is_empty p.mysqlpool)) [
    | inl e ↦ rw (e, get_one_connect) (connect_below_limit-IsValid lent p w v)
    | inr e ↦
        let kept =
          drop_dead-count lent p.mysqlpool p.connect_count w v.counted
            (omega (arith, v.limited, v.fits)) in
        rw (e, get_one_connect)
          (take_front-IsValid lent _ _ _ kept.0 (omega (arith, kept, v.limited)) v.fits)
  ]

-- Neither of them changes the limit.
module _ (sv : Services) where
  open sv use {World}

  connect_below_limit-max_connect :
      (p : MysqlPool) (w : World) → (connect_below_limit sv p w).1.max_connect ≡ p.max_connect
  unfolding connect_below_limit create_one_connect connect_initialised
  connect_below_limit-max_connect p w = ground arith

  take_front-max_connect :
      (q : List ℕ) (p : MysqlPool) (w : World) → (take_front sv q p w).1.max_connect ≡ p.max_connect
  unfolding take_front
  take_front-max_connect [] p w = connect_below_limit-max_connect (record p { mysqlpool = [] }) w
  take_front-max_connect (c ∷ q) p w = refl

  pub get_one_connect-max_connect :
      (p : MysqlPool) (w : World) → (get_one_connect sv p w).1.max_connect ≡ p.max_connect
  unfolding get_one_connect
  get_one_connect-max_connect p w = elim (Bool-cases (is_empty p.mysqlpool)) [
    | inl e ↦ rw (e, get_one_connect) (connect_below_limit-max_connect p w)
    | inr e ↦ rw (e, get_one_connect) (take_front-max_connect _ _ _)
  ]

pub close-max_connect :
    (conn : Option ℕ) (p : MysqlPool) → (close conn p).max_connect ≡ p.max_connect
unfolding close
close-max_connect none p = refl
close-max_connect (some c) p = refl

pub close-IsValid :
    (lent : ℕ) (conn : ℕ) (p : MysqlPool)
    → IsValid (suc lent) p
    → IsValid lent (close (some conn) p)
unfolding close
close-IsValid lent conn p v = ground (arith, length-append p.mysqlpool (conn ∷ []))

-- Callers of the pool: the connections that they hold, newest first.
pub record Session (sv : Services) : Type 0 where
  pub pool : MysqlPool
  pub held : List ℕ
  pub world : sv.World

pub data Call : Type 0 where
  gets : Call
  -- Gives back the newest connection, or NULL where there is none.
  gives : Call

abbrev pub keep : Option ℕ → List ℕ → List ℕ
keep none held = held
keep (some c) held = c ∷ held

module _ (sv : Services) where
  give_back : List ℕ → Session sv → Session sv
  give_back [] s = record s { pool = close none s.pool }
  give_back (c ∷ held) s = record s { pool = close (some c) s.pool; held = held }

  pub serve : Call → Session sv → Session sv
  unfolding give_back
  serve gets s =
      let (conn, p, w) = get_one_connect sv s.pool s.world in
      record { pool = p; held = keep conn s.held; world = w }
  serve gives s = give_back s.held s

  pub run : List Call → Session sv → Session sv
  run [] s = s
  run (c ∷ cs) s = run cs (serve c s)

  abbrev SessionIsValid : Session sv → Type 0
  SessionIsValid s = IsValid (length s.held) s.pool

  gets-IsValid :
      (conn : Option ℕ) (held : List ℕ) (p : MysqlPool)
      → IsValid (lend (length held) conn) p
      → IsValid (length (keep conn held)) p
  gets-IsValid none held p v = v
  gets-IsValid (some c) held p v = v

  give_back-IsValid :
      (held : List ℕ) (s : Session sv)
      → s.held ≡ held
      → IsValid (length held) s.pool
      → SessionIsValid (give_back held s)
  unfolding give_back close
  give_back-IsValid [] s e v = rw e v
  give_back-IsValid (c ∷ held) s e v = close-IsValid (length held) c s.pool v

  serve-IsValid : (c : Call) (s : Session sv) → SessionIsValid s → SessionIsValid (serve c s)
  unfolding serve
  serve-IsValid gets s v =
      gets-IsValid (get_one_connect sv s.pool s.world).0 s.held _
        (get_one_connect-IsValid sv (length s.held) s.pool s.world v)
  serve-IsValid gives s v = give_back-IsValid s.held s refl v

  run-IsValid : (cs : List Call) (s : Session sv) → SessionIsValid s → SessionIsValid (run cs s)
  unfolding run
  run-IsValid [] s v = v
  run-IsValid (c ∷ cs) s v = run-IsValid cs (serve c s) (serve-IsValid c s v)

  -- However calls of `getOneConnect` and `close` follow one another, on a pool that starts
  -- empty and whose limit is below 2^32, no more than `MAX_CONNECT` connections exist at once, idle and lent ones together,
  -- and `connect_count` is their number.
  pub run-limit :
      (cs : List Call) (s : Session sv)
      → s.pool.mysqlpool ≡ []
      → s.held ≡ []
      → s.pool.connect_count ≡ 0
      → s.pool.max_connect < 2 ^ 32
      → let t = run cs s in
        (t.pool.connect_count ≡ length t.pool.mysqlpool + length t.held)
        × (length t.pool.mysqlpool + length t.held ≤ t.pool.max_connect)
  run-limit cs s idle none_held fresh fits = (v.counted, omega (arith, v.counted, v.limited))
    where
      v : SessionIsValid (run cs s)
      v = run-IsValid cs s (record {
        counted = omega (arith, ap length idle, ap length none_held);
        limited = omega arith;
        fits = fits;
      })
