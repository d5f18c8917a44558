-- ===== src/Worker/Counters.antt =====
-- GRPC/src/Worker.cc: the two counters that the workers of all threads share. `++` is a read and
-- a write; `*failedCount_` is raised under the lock, `*successNum_` is not. The steps of the
-- threads follow one another in any order.
pub mod Locked
pub mod Lost
use docker_compose_seckill_s.Base.{ℕ, ◌+◌, List, [], ◌∷◌, Option, none, some, if◌then◌else◌, ◌==◌}

-- Where a thread stands: before the statement, inside the lock, between the read and the write,
-- before `pthread_rwlock_unlock`, or behind it all.
pub data Place : Type 0 where
  idle locked : Place
  holds : ℕ → Place
  unlocks counted : Place

pub record Counter : Type 0 where
  pub value : ℕ
  -- The thread that holds the lock.
  pub holder : Option ℕ
  -- What it was at the beginning, or 0 once it was cleared.
  pub base : ℕ
  -- How many increments were written since then.
  pub writes : ℕ
  pub place : ℕ → Place

abbrev pub move : ℕ → Place → (ℕ → Place) → ℕ → Place
move t p place u = if t == u then p else place u

-- `++ *successNum_`.
unfoldable pub success_at : ℕ → Place → Counter → Counter
success_at t idle s = record s { place = move t (holds s.value) s.place }
success_at t (holds k) s = record s {
  value = k + 1;
  writes = s.writes + 1;
  place = move t counted s.place;
}
success_at t _ s = s

-- What a thread takes the lock for: the increment, `*failedCount_ = 0` after the items were put
-- back, or only the test before that.
pub data Task : Type 0 where
  raises clears tests : Task

unfoldable pub inside_lock : ℕ → Task → Counter → Counter
inside_lock t raises s = record s { place = move t (holds s.value) s.place }
inside_lock t clears s = record s {
  value = 0;
  base = 0;
  writes = 0;
  place = move t unlocks s.place;
}
inside_lock t tests s = record s { place = move t unlocks s.place }

-- The lines from the lock to its release; at a lock that is held the thread waits.
unfoldable pub failure_at : (ℕ → Task) → ℕ → Place → Option ℕ → Counter → Counter
failure_at task t idle none s = record s { holder = some t; place = move t locked s.place }
failure_at task t idle (some u) s = s
failure_at task t locked holder s = inside_lock t (task t) s
failure_at task t (holds k) holder s = record s {
  value = k + 1;
  writes = s.writes + 1;
  place = move t unlocks s.place;
}
failure_at task t unlocks holder s = record s { holder = none; place = move t counted s.place }
failure_at task t counted holder s = s

-- The threads move in the order given.
unfoldable pub run_success : List ℕ → Counter → Counter
run_success [] s = s
run_success (t ∷ ts) s = run_success ts (success_at t (s.place t) s)

unfoldable pub run_failure : (ℕ → Task) → List ℕ → Counter → Counter
run_failure task [] s = s
run_failure task (t ∷ ts) s = run_failure task ts (failure_at task t (s.place t) s.holder s)

abbrev pub begin : ℕ → Counter
begin n = record { value = n; holder = none; base = n; writes = 0; place = λ t. idle }
