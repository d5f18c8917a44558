-- ===== src/Machine/Monad.antt =====
-- The state of the server process, and code that reads it, changes it, or faults.
use docker_compose_seckill_s.Base.{ℕ, Bool, true, false, Option, Bytes}
use docker_compose_seckill_s.Services.{Services, Request}
use docker_compose_seckill_s.MysqlPool.{MysqlPool}
use docker_compose_seckill_s.RedisPool.{RedisPool}

-- `Worker::WorkerStatus`.
pub data WorkerStatus : Type 0 where
  create process finish : WorkerStatus

-- `class Worker`: the members of its own. What it shares with others stands in `Machine`.
pub record Worker : Type 0 where
  pub status : WorkerStatus
  pub request : Request
  pub response : Bytes

-- Where the code stops the process or its behaviour is undefined. `out_of_rows` and
-- `out_of_passes` are the model's own: a loop over the rows of a result, or the attempts of
-- `seckillGoods`, were given too few rounds.
pub data Fault : Type 0 where
  null_pointer bad_index buffer_overflow int_overflow : Fault
  use_after_free deadlock aborted exited out_of_rows out_of_passes : Fault

-- `workers` is the heap of `Worker` objects, and `self` is the object that `this` points to.
pub record Machine (sv : Services) : Type 0 where
  pub world : sv.World
  pub mysql : MysqlPool
  pub redis : RedisPool
  pub failed_count : ℕ
  pub success_num : ℕ
  pub write_locked : Bool
  pub replies_made : ℕ
  pub replies_freed : ℕ
  pub workers : ℕ → Option Worker
  pub next_worker : ℕ
  pub self : Worker

pub data Outcome (sv : Services) (A : Type 0) : Type 0 where
  done : A → Machine sv → Outcome sv A
  fault : Fault → Outcome sv A

abbrev pub M : Services → Type 0 → Type 0
M sv A = Machine sv → Outcome sv A

abbrev pub pure : {sv : Services} {A : Type 0} → A → M sv A
pure a m = done a m

abbrev pub raise : {sv : Services} {A : Type 0} → Fault → M sv A
raise e m = fault e

infixl 5 ◌>>=◌ ◌>>◌
abbrev pub ◌>>=◌ : {sv : Services} {A B : Type 0} → M sv A → (A → M sv B) → M sv B
◌>>=◌ act f m = elim (act m) [ done a m' ↦ f a m' | fault e ↦ fault e ]

abbrev pub ◌>>◌ : {sv : Services} {A B : Type 0} → M sv A → M sv B → M sv B
act >> next = act >>= λ _. next

abbrev pub gets : {sv : Services} {A : Type 0} → (Machine sv → A) → M sv A
gets f m = done (f m) m

abbrev pub modify : {sv : Services} → (Machine sv → Machine sv) → M sv (Unit {0})
modify f m = done tt (f m)

-- `if (b) act;`
abbrev pub when : {sv : Services} → Bool → M sv (Unit {0}) → M sv (Unit {0})
when true act = act
when false act = pure tt
