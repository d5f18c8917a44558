-- ===== src/Machine/Quiet.antt =====
-- Code that leaves the books alone: the counters, the lock, the workers. It may talk to the
-- servers, move connections in the pools, and fault.
mod Partial
mod Keep
pub use Partial.*
pub use Keep.*
use docker_compose_seckill_s.Base.{ℕ, Bool, Option, none, some, ◌≡◌, refl}
use docker_compose_seckill_s.Services.{Services}
use docker_compose_seckill_s.Machine.Monad.{Machine, Worker, M, gets, ◌>>=◌}
use docker_compose_seckill_s.Machine.Calls.{autocommit, commit, rollback}

pub record Books : Type 0 where
  pub success_num : ℕ
  pub failed_count : ℕ
  pub write_locked : Bool
  pub workers : ℕ → Option Worker
  pub next_worker : ℕ
  pub self : Worker

abbrev pub books : {sv : Services} → Machine sv → Books
books m = record {
  success_num = m.success_num;
  failed_count = m.failed_count;
  write_locked = m.write_locked;
  workers = m.workers;
  next_worker = m.next_worker;
  self = m.self;
}

abbrev pub books_frame : (sv : Services) → Frame sv
books_frame sv = record {
  Seen = Books;
  see = books;
  Plain = λ conn t. Unit {0};
  after_command = λ conn format args n m. refl;
  after_free_reply = λ n m. refl;
  after_query = λ conn t m plain. refl;
  after_use_result = λ conn m. refl;
  after_fetch_row = λ res m. refl;
  after_free_result = λ res m. refl;
}

pub books_pools : (sv : Services) → PoolFrame (books_frame sv)
books_pools sv = record {
  after_redis_connect = λ m. refl;
  after_mysql_connect = λ m. refl;
  after_redis_close = λ conn m. refl;
  after_mysql_close = λ conn m. refl;
  after_finish = λ this t m. refl;
  after_next = λ m. refl;
}

abbrev pub IsQuiet : {sv : Services} {A : Type 0} → M sv A → Type 0
IsQuiet {sv} act = Keeps (books_frame sv) act

module _ {sv : Services} where
  pub quiet_then :
      {A B : Type 0} {act : M sv A} {f : A → M sv B} {m : Machine sv} {Q : B → Machine sv → Type 0}
      → IsQuiet act
      → ((a : A) (m' : Machine sv) → books m' ≡ books m → Ensures (f a) m' Q)
      → Ensures (act >>= f) m Q
  quiet_then q k = keeps_then q k

  pub Ensures-gets :
      {A : Type 0} (f : Machine sv → A) (m : Machine sv)
      → Ensures (gets f) m (λ a m'. (a ≡ f m') × (books m' ≡ books m))
  Ensures-gets f m = record { apply = (refl, refl) }

module _ (sv : Services) where
  pub autocommit-IsQuiet : (conn : Option ℕ) (on : Bool) → IsQuiet (autocommit sv conn on)
  unfolding autocommit
  autocommit-IsQuiet none on = record { apply = λ m. record { apply = refl } }
  autocommit-IsQuiet (some conn) on = record { apply = λ m. record { apply = refl } }

  pub commit-IsQuiet : (conn : Option ℕ) → IsQuiet (commit sv conn)
  unfolding commit
  commit-IsQuiet none = record { apply = λ m. record { apply = refl } }
  commit-IsQuiet (some conn) = record { apply = λ m. record { apply = refl } }

  pub rollback-IsQuiet : (conn : Option ℕ) → IsQuiet (rollback sv conn)
  unfolding rollback
  rollback-IsQuiet none = record { apply = λ m. record { apply = refl } }
  rollback-IsQuiet (some conn) = record { apply = λ m. record { apply = refl } }
