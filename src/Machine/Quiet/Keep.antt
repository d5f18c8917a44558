-- ===== src/Machine/Quiet/Keep.antt =====
-- Code that leaves something alone: a `Frame` says what is looked at, and that the calls of the
-- client libraries do not change it. Reading and writing through such calls then keeps it.
use docker_compose_seckill_s.Base.{
  ℕ, zero, suc, [], ◌∷◌, Bool, true, false, Bytes, List, Option, none, some, ◌≡◌, refl, ◌∙◌,
  if◌then◌else◌, ℤ, atoi,
}
use docker_compose_seckill_s.Services.{Services, Reply, Row, ReplyType, reply_status}
use docker_compose_seckill_s.Machine.Monad.{Machine, M, pure, raise, gets, Fault, ◌>>=◌}
use docker_compose_seckill_s.Machine.Calls.{
  deref, parse_int, parsed_int, sprintf_200, command, free_reply, is_ok, status_ok, query,
  use_result, fetch_row, num_fields, free_result, column, redis_connect, mysql_connect, redis_close,
  mysql_close,
}
use docker_compose_seckill_s.MysqlPool
use docker_compose_seckill_s.RedisPool
use docker_compose_seckill_s.Machine.Quiet.Partial.{is_stop, Ensures, Ensures-bind, Ensures-map}

pub record Frame (sv : Services) : Type 1 where
  pub Seen : Type 0
  pub see : Machine sv → Seen
  -- The statements that do not change it.
  pub Plain : ℕ → Bytes → Type 0
  pub after_command :
      (conn : ℕ) (format : Bytes) (args : List Bytes) (n : ℕ) (m : Machine sv)
      → see (record m { world = (sv.redis_command conn format args m.world).1; replies_made = n })
        ≡ see m
  pub after_free_reply : (n : ℕ) (m : Machine sv) → see (record m { replies_freed = n }) ≡ see m
  pub after_query :
      (conn : ℕ) (t : Bytes) (m : Machine sv)
      → Plain conn t
      → see (record m { world = (sv.mysql_query conn t m.world).1 }) ≡ see m
  pub after_use_result :
      (conn : ℕ) (m : Machine sv)
      → see (record m { world = (sv.mysql_use_result conn m.world).1 }) ≡ see m
  pub after_fetch_row :
      (res : ℕ) (m : Machine sv)
      → see (record m { world = (sv.mysql_fetch_row res m.world).1 }) ≡ see m
  pub after_free_result :
      (res : ℕ) (m : Machine sv)
      → see (record m { world = sv.mysql_free_result res m.world }) ≡ see m

-- The calls on the pools and on the completion queue do not change it either.
pub record PoolFrame {sv : Services} (fr : Frame sv) : Type 0 where
  pub after_redis_connect :
      (m : Machine sv)
      → let (conn, p, w) = RedisPool.get_one_connect sv m.redis m.world in
        fr.see (record m { redis = p; world = w }) ≡ fr.see m
  pub after_mysql_connect :
      (m : Machine sv)
      → let (conn, p, w) = MysqlPool.get_one_connect sv m.mysql m.world in
        fr.see (record m { mysql = p; world = w }) ≡ fr.see m
  pub after_redis_close :
      (conn : Option ℕ) (m : Machine sv)
      → fr.see (record m { redis = RedisPool.close conn m.redis }) ≡ fr.see m
  pub after_mysql_close :
      (conn : Option ℕ) (m : Machine sv)
      → fr.see (record m { mysql = MysqlPool.close conn m.mysql }) ≡ fr.see m
  pub after_finish :
      (this : ℕ) (t : Bytes) (m : Machine sv)
      → fr.see (record m { world = sv.finish this t m.world }) ≡ fr.see m
  pub after_next :
      (m : Machine sv) → fr.see (record m { world = (sv.cq_next m.world).1 }) ≡ fr.see m

pub record Keeps {sv : Services} (fr : Frame sv) {A : Type 0} (act : M sv A) : Type 0 where
  pub apply : (m : Machine sv) → Ensures act m (λ _ m'. fr.see m' ≡ fr.see m)

module _ {sv : Services} {fr : Frame sv} where
  -- Such a step in front of anything.
  pub keeps_then :
      {A B : Type 0} {act : M sv A} {f : A → M sv B} {m : Machine sv} {Q : B → Machine sv → Type 0}
      → Keeps fr act
      → ((a : A) (m' : Machine sv) → fr.see m' ≡ fr.see m → Ensures (f a) m' Q)
      → Ensures (act >>= f) m Q
  keeps_then {m} q k = Ensures-bind (q.apply m) k

  pub Keeps-pure : {A : Type 0} (a : A) → Keeps fr (pure a)
  Keeps-pure a = record { apply = λ m. record { apply = refl } }

  pub Keeps-raise : {A : Type 0} (e : Fault) → is_stop e ≡ true → Keeps fr {A = A} (raise e)
  Keeps-raise e h = record { apply = λ m. record { apply = h } }

  pub Keeps-bind :
      {A B : Type 0} {act : M sv A} {f : A → M sv B}
      → Keeps fr act
      → ((a : A) → Keeps fr (f a))
      → Keeps fr (act >>= f)
  Keeps-bind q r = record {
    apply = λ m. keeps_then q λ a m' e. Ensures-map ((r a).apply m') (λ b m'' e'. e' ∙ e);
  }

  pub Keeps-if :
      {A : Type 0} (b : Bool) {x y : M sv A}
      → Keeps fr x
      → Keeps fr y
      → Keeps fr (if b then x else y)
  Keeps-if true q r = q
  Keeps-if false q r = r

  pub Keeps-option :
      {A B : Type 0} (o : Option A) {x : M sv B} {f : A → M sv B}
      → Keeps fr x
      → ((a : A) → Keeps fr (f a))
      → Keeps fr (elim o [ none ↦ x | some a ↦ f a ])
  Keeps-option none q r = q
  Keeps-option (some a) q r = r a

  pub Keeps-gets : {A : Type 0} (f : Machine sv → A) → Keeps fr (gets f)
  Keeps-gets f = record { apply = λ m. record { apply = refl } }

module _ (sv : Services) {fr : Frame sv} where
  pub deref-Keeps : (s : Option Bytes) → Keeps fr (deref sv s)
  unfolding deref
  deref-Keeps none = Keeps-raise _ refl
  deref-Keeps (some t) = Keeps-pure _

  parsed_int-Keeps : (n : Option ℤ) → Keeps fr (parsed_int sv n)
  unfolding parsed_int
  parsed_int-Keeps none = Keeps-raise _ refl
  parsed_int-Keeps (some n) = Keeps-pure _

  pub parse_int-Keeps : (s : Option Bytes) → Keeps fr (parse_int sv s)
  unfolding parse_int
  parse_int-Keeps s = Keeps-bind (deref-Keeps s) (λ t. parsed_int-Keeps (atoi t))

  pub sprintf_200-Keeps : (t : Bytes) → Keeps fr (sprintf_200 sv t)
  unfolding sprintf_200
  sprintf_200-Keeps t = Keeps-if _ (Keeps-pure _) (Keeps-raise _ refl)

  pub command-Keeps :
      (conn : Option ℕ) (format : Bytes) (args : List Bytes)
      → Keeps fr (command sv conn format args)
  unfolding command
  command-Keeps none format args = record { apply = λ m. record { apply = refl } }
  command-Keeps (some conn) format args = record {
    apply = λ m. record { apply = fr.after_command conn format args _ m };
  }

  pub free_reply-Keeps : (r : Option Reply) → Keeps fr (free_reply sv r)
  unfolding free_reply
  free_reply-Keeps r = record { apply = λ m. record { apply = fr.after_free_reply _ m } }

  status_ok-Keeps : (k : ReplyType) (s : Option Bytes) → Keeps fr (status_ok sv k s)
  unfolding status_ok
  status_ok-Keeps reply_status s = Keeps-bind (deref-Keeps s) (λ t. Keeps-pure _)
  status_ok-Keeps _ s = Keeps-pure _

  pub is_ok-Keeps : (r : Option Reply) → Keeps fr (is_ok sv r)
  unfolding is_ok
  is_ok-Keeps none = Keeps-pure _
  is_ok-Keeps (some r) = status_ok-Keeps r.type r.str

  pub query-Keeps :
      (conn : Option ℕ) (t : Bytes) → ((c : ℕ) → fr.Plain c t) → Keeps fr (query sv conn t)
  unfolding query
  query-Keeps none t plain = record { apply = λ m. record { apply = refl } }
  query-Keeps (some conn) t plain = record {
    apply = λ m. record { apply = fr.after_query conn t m (plain conn) };
  }

  pub use_result-Keeps : (conn : Option ℕ) → Keeps fr (use_result sv conn)
  unfolding use_result
  use_result-Keeps none = record { apply = λ m. record { apply = refl } }
  use_result-Keeps (some conn) = record {
    apply = λ m. record { apply = fr.after_use_result conn m };
  }

  pub fetch_row-Keeps : (res : Option ℕ) → Keeps fr (fetch_row sv res)
  unfolding fetch_row
  fetch_row-Keeps none = record { apply = λ m. record { apply = refl } }
  fetch_row-Keeps (some res) = record { apply = λ m. record { apply = fr.after_fetch_row res m } }

  pub num_fields-Keeps : (res : Option ℕ) → Keeps fr (num_fields sv res)
  unfolding num_fields
  num_fields-Keeps none = record { apply = λ m. record { apply = refl } }
  num_fields-Keeps (some res) = record { apply = λ m. record { apply = refl } }

  pub free_result-Keeps : (res : Option ℕ) → Keeps fr (free_result sv res)
  unfolding free_result
  free_result-Keeps none = record { apply = λ m. record { apply = refl } }
  free_result-Keeps (some res) = record {
    apply = λ m. record { apply = fr.after_free_result res m };
  }

  pub column-Keeps : (row : Row) (i : ℕ) → Keeps fr (column sv row i)
  unfolding column
  column-Keeps [] i = Keeps-raise _ refl
  column-Keeps (t ∷ row) zero = Keeps-pure _
  column-Keeps (t ∷ row) (suc i) = column-Keeps row i

  module _ (pools : PoolFrame fr) where
    pub redis_connect-Keeps : Keeps fr (redis_connect sv)
    unfolding redis_connect
    redis_connect-Keeps = record { apply = λ m. record { apply = pools.after_redis_connect m } }

    pub mysql_connect-Keeps : Keeps fr (mysql_connect sv)
    unfolding mysql_connect
    mysql_connect-Keeps = record { apply = λ m. record { apply = pools.after_mysql_connect m } }

    pub redis_close-Keeps : (conn : Option ℕ) → Keeps fr (redis_close sv conn)
    unfolding redis_close
    redis_close-Keeps conn = record {
      apply = λ m. record { apply = pools.after_redis_close conn m };
    }

    pub mysql_close-Keeps : (conn : Option ℕ) → Keeps fr (mysql_close sv conn)
    unfolding mysql_close
    mysql_close-Keeps conn = record {
      apply = λ m. record { apply = pools.after_mysql_close conn m };
    }
