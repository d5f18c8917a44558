-- ===== src/Worker/Lends/Process.antt =====
-- GRPC/src/Worker.cc: `Proceed` gives the MySQL connection that it took back to the pool.
use docker_compose_seckill_s.MysqlPool.Limit.{
  IsValid, lend, get_one_connect-IsValid, close-IsValid, get_one_connect-max_connect,
  close-max_connect,
}
use docker_compose_seckill_s.Base.{subst, ℕ, ◌≡◌, refl, sym, ap, ◌∙◌, Option, none, some}
use docker_compose_seckill_s.Services.{Services}
use docker_compose_seckill_s.Machine.{
  Machine, Worker, WorkerStatus, create, process, finish, M, modify, ◌>>=◌,
}
use docker_compose_seckill_s.Machine.Calls.{mysql_connect, mysql_close}
use docker_compose_seckill_s.Machine.Quiet.{
  Keeps, Keeps-bind, Keeps-gets, Ensures, Ensures-bind, Ensures-map, keeps_then, command-Keeps,
}
use docker_compose_seckill_s.MysqlPool
use docker_compose_seckill_s.MysqlPool.{MysqlPool}
use docker_compose_seckill_s.Worker.Proceed.{
  proceed_create, new_worker, set_finish, load_self, save_self, delete_self, proceed_process,
  proceed_finish, proceed_as, proceed_at, proceed,
}
use docker_compose_seckill_s.Worker.Lends.{
  pool_frame, answer-Keeps, redis_connect-Keeps, redis_close-Keeps,
}

-- What a call does to the pool: nothing, or it takes a connection and gives it back.
pub data Borrows (sv : Services) (p p' : MysqlPool) : Type 0 where
  untouched : p' ≡ p → Borrows sv p p'
  returned :
      (w : sv.World)
      → p'
        ≡ MysqlPool.close (MysqlPool.get_one_connect sv p w).0 (MysqlPool.get_one_connect sv p w).1
      → Borrows sv p p'

pub Borrows-within :
    {sv : Services} {p q q' p' : MysqlPool} → q ≡ p → p' ≡ q' → Borrows sv q q' → Borrows sv p p'
Borrows-within e e' (untouched u) = untouched (e' ∙ u ∙ e)
Borrows-within e e' (returned w u) = returned w cc

-- The limit is `limit`, and `lent` connections are out.
abbrev pub Within : ℕ → ℕ → MysqlPool → Type 0
Within limit lent p = IsValid lent p × (p.max_connect ≡ limit)

module _ (limit lent : ℕ) where
  pub taken-Within :
      (sv : Services) {conn : Option ℕ} {p q : MysqlPool} (w : sv.World)
      → Within limit lent p
      → conn ≡ (MysqlPool.get_one_connect sv p w).0
      → q ≡ (MysqlPool.get_one_connect sv p w).1
      → Within limit (lend lent conn) q
  taken-Within sv {conn} {p} {q} w v c e = (
    rw (c, e) (get_one_connect-IsValid sv lent p w v.0),
    ap (λ q. q.max_connect) e ∙ get_one_connect-max_connect sv p w ∙ v.1,
  )

  given-IsValid :
      (conn : Option ℕ) (p : MysqlPool)
      → IsValid (lend lent conn) p
      → IsValid lent (MysqlPool.close conn p)
  unfolding MysqlPool.close
  given-IsValid none p v = v
  given-IsValid (some c) p v = close-IsValid lent c p v

  pub given-Within :
      {q : MysqlPool} (conn : Option ℕ) (p : MysqlPool)
      → Within limit (lend lent conn) p
      → q ≡ MysqlPool.close conn p
      → Within limit lent q
  given-Within conn p v e = (
    subst (IsValid lent) (sym e) (given-IsValid conn p v.0),
    ap (λ q. q.max_connect) e ∙ close-max_connect conn p ∙ v.1,
  )

  -- As many connections are lent as before.
  pub Borrows-Within :
      {sv : Services} {p p' : MysqlPool}
      → Borrows sv p p'
      → Within limit lent p
      → Within limit lent p'
  Borrows-Within (untouched u) v = subst (Within limit lent) (sym u) v
  Borrows-Within {sv} (returned w u) v = given-Within _ _ (taken-Within sv w v refl refl) u

module _ (sv : Services) (fuel : ℕ) where
  pub pool_then :
      {A B : Type 0} {act : M sv A} {f : A → M sv B} {m : Machine sv} {Q : B → Machine sv → Type 0}
      → Keeps (pool_frame sv) act
      → ((a : A) (m' : Machine sv) → m'.mysql ≡ m.mysql → Ensures (f a) m' Q)
      → Ensures (act >>= f) m Q
  pool_then q k = keeps_then q k

  set_finish-Keeps : Keeps (pool_frame sv) (set_finish sv fuel)
  unfolding set_finish
  set_finish-Keeps = record { apply = λ m. record { apply = refl } }

  pub new_worker-Keeps : Keeps (pool_frame sv) (new_worker sv fuel)
  unfolding new_worker proceed_create
  new_worker-Keeps = record { apply = λ m. record { apply = refl } }

  load_self-Keeps : (w : Worker) → Keeps (pool_frame sv) (load_self sv fuel w)
  unfolding load_self
  load_self-Keeps w = record { apply = λ m. record { apply = refl } }

  save_self-Keeps : (this : ℕ) → Keeps (pool_frame sv) (save_self sv fuel this)
  unfolding save_self
  save_self-Keeps this = record { apply = λ m. record { apply = refl } }

  delete_self-Keeps : (this : ℕ) → Keeps (pool_frame sv) (delete_self sv fuel this)
  unfolding delete_self
  delete_self-Keeps this = record { apply = λ m. record { apply = refl } }

  sent-Keeps :
      (this : ℕ)
      → Keeps
          (pool_frame sv)
          (modify {sv = sv} λ m. record m { world = sv.finish this m.self.response m.world })
  sent-Keeps this = record { apply = λ m. record { apply = refl } }

  pub mysql_connect-takes :
      (m : Machine sv)
      → Ensures (mysql_connect sv) m (λ conn m'.
        let (c, q, w) = MysqlPool.get_one_connect sv m.mysql m.world in (conn ≡ c) × (m'.mysql ≡ q))
  unfolding mysql_connect
  mysql_connect-takes m = record { apply = (refl, refl) }

  pub mysql_close-gives :
      (conn : Option ℕ) (m : Machine sv)
      → Ensures (mysql_close sv conn) m (λ _ m'. m'.mysql ≡ MysqlPool.close conn m.mysql)
  unfolding mysql_close
  mysql_close-gives conn m = record { apply = refl }

  proceed_process-Borrows :
      (this : ℕ) (m : Machine sv)
      → Ensures (proceed_process sv fuel this) m (λ _ m'. Borrows sv m.mysql m'.mysql)
  unfolding proceed_process
  proceed_process-Borrows this m = pool_then (redis_connect-Keeps sv) λ redis m1 e1.
      Ensures-bind (mysql_connect-takes m1) λ conn m2 t. pool_then set_finish-Keeps λ _ m3 e3.
        pool_then (command-Keeps sv redis _ _) λ _ m4 e4. pool_then new_worker-Keeps λ _ m5 e5.
          pool_then (Keeps-gets (λ x. x.self.request)) λ request m6 e6.
            pool_then (answer-Keeps sv fuel request.usrname request.usrkey redis conn) λ _ m7 e7.
              pool_then (redis_close-Keeps sv redis) λ _ m8 e8.
                Ensures-bind (mysql_close-gives conn m8) λ _ m9 e9.
                  Ensures-map ((sent-Keeps this).apply m9) λ _ m10 e10. returned m1.world cc

  proceed_finish-Keeps : Keeps (pool_frame sv) (proceed_finish sv fuel)
  unfolding proceed_finish
  proceed_finish-Keeps =
      Keeps-bind (redis_connect-Keeps sv)
        λ conn. Keeps-bind (command-Keeps sv conn _ _) λ _. redis_close-Keeps sv conn

  proceed_create-Keeps :
      (this : ℕ) (w : Worker) → Keeps (pool_frame sv) (modify (proceed_create sv fuel this w))
  unfolding proceed_create
  proceed_create-Keeps this w = record { apply = λ m. record { apply = refl } }

  proceed_as-Borrows :
      (this : ℕ) (w : Worker) (status : WorkerStatus) (m : Machine sv)
      → Ensures (proceed_as sv fuel this w status) m (λ _ m'. Borrows sv m.mysql m'.mysql)
  unfolding proceed_as
  proceed_as-Borrows this w create m =
      Ensures-map ((proceed_create-Keeps this w).apply m) λ _ m1 e1. untouched e1
  proceed_as-Borrows this w process m = pool_then (load_self-Keeps w) λ _ m1 e1.
      Ensures-bind (proceed_process-Borrows this m1)
        λ _ m2 b. Ensures-map ((save_self-Keeps this).apply m2) λ _ m3 e3. Borrows-within e1 e3 b
  proceed_as-Borrows this w finish m =
      Ensures-map
        ((Keeps-bind (load_self-Keeps w)
            λ _. Keeps-bind proceed_finish-Keeps λ _. delete_self-Keeps this).apply
          m)
        λ _ m1 e1. untouched e1

  proceed_at-Borrows :
      (this : ℕ) (o : Option Worker) (m : Machine sv)
      → Ensures (proceed_at sv fuel this o) m (λ _ m'. Borrows sv m.mysql m'.mysql)
  unfolding proceed_at
  proceed_at-Borrows this none m = record { apply = refl }
  proceed_at-Borrows this (some w) m = proceed_as-Borrows this w w.status m

  pub proceed-Borrows :
      (this : ℕ) (m : Machine sv)
      → Ensures (proceed sv fuel this) m (λ _ m'. Borrows sv m.mysql m'.mysql)
  unfolding proceed
  proceed-Borrows this m = record { apply = (proceed_at-Borrows this (m.workers this) m).apply }
