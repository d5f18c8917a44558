-- ===== src/MysqlPool/Singleton.antt =====
-- GRPC/src/mysqlpool.cc: `getMysqlPoolObject`, the double-checked locking, by any number of
-- threads. `RedisPool::getRedisPoolObject` has the same text. Every read and write of the shared
-- pointer is one step, in an order that all threads see.
use docker_compose_seckill_s.Base.{
  ℕ, ◌+◌, ◌≤◌, ◌≡◌, ◌≢◌, refl, Bool, true, false, List, [], ◌∷◌, Option, none, some, if◌then◌else◌,
  ◌==◌, arith, inl, inr, Option-cases, ap, ◌∙◌,
}

-- Where a thread stands in the function: before the first test, at `lock()`, before the second
-- test, at `new`, at `unlock()`, and at `return`.
pub data Place : Type 0 where
  first_test waits second_test news unlocks returns : Place

pub record Shared : Type 0 where
  -- `mysqlpool_object`: the number of the object, in the order of their creation.
  pub object : Option ℕ
  -- The thread that holds `objectlock`.
  pub holder : Option ℕ
  -- How many objects were created.
  pub created : ℕ
  pub place : ℕ → Place

abbrev pub move : ℕ → Place → (ℕ → Place) → ℕ → Place
move t p place u = if t == u then p else place u

-- The next step of thread `t`, which stands at the place given; at a lock that is held it waits.
pub step_at : ℕ → Place → Option ℕ → Option ℕ → Shared → Shared
step_at t first_test none holder s = record s { place = move t waits s.place }
step_at t first_test (some o) holder s = record s { place = move t returns s.place }
step_at t waits object none s = record s { holder = some t; place = move t second_test s.place }
step_at t waits object (some u) s = s
step_at t second_test none holder s = record s { place = move t news s.place }
step_at t second_test (some o) holder s = record s { place = move t unlocks s.place }
step_at t news object holder s = record s {
  object = some s.created;
  created = s.created + 1;
  place = move t unlocks s.place;
}
step_at t unlocks object holder s = record s { holder = none; place = move t returns s.place }
step_at t returns object holder s = s

pub step : ℕ → Shared → Shared
step t s = step_at t (s.place t) s.object s.holder s

-- The threads move in the order given.
pub run_threads : List ℕ → Shared → Shared
run_threads [] s = s
run_threads (t ∷ ts) s = run_threads ts (step t s)

abbrev pub begin : Shared
begin = record { object = none; holder = none; created = 0; place = λ t. first_test }

-- Whether a place lies between `lock()` and the end of `unlock()`.
abbrev locked_at : Place → Bool
locked_at second_test = true
locked_at news = true
locked_at unlocks = true
locked_at _ = false

-- Whether the object is there when a thread stands at the place.
abbrev ready_at : Place → Bool
ready_at unlocks = true
ready_at returns = true
ready_at _ = false

record IsSingle (s : Shared) : Type 0 where
  absent : s.object ≡ none → s.created ≡ 0
  present : (o : ℕ) → s.object ≡ some o → (o ≡ 0) × (s.created ≡ 1)
  excluded : (t : ℕ) → locked_at (s.place t) ≡ true → s.holder ≡ some t
  unmade : (t : ℕ) → s.place t ≡ news → s.object ≡ none
  made : (t : ℕ) → ready_at (s.place t) ≡ true → s.object ≢ none

step_at-IsSingle :
    (t : ℕ) (p : Place) (o h : Option ℕ) (s : Shared)
    → s.place t ≡ p
    → s.object ≡ o
    → s.holder ≡ h
    → IsSingle s
    → IsSingle (step_at t p o h s)
unfolding step_at
step_at-IsSingle t first_test none h s e eo eh v = record {
  absent = v.absent;
  present = v.present;
  excluded = λ u l. ground (arith, v.excluded u);
  unmade = λ u l. ground (arith, v.unmade u);
  made = λ u l. ground (arith, v.made u);
}
step_at-IsSingle t first_test (some o) h s e eo eh v = record {
  absent = v.absent;
  present = v.present;
  excluded = λ u l. ground (arith, v.excluded u);
  unmade = λ u l. ground (arith, v.unmade u);
  made = λ u l. ground (arith, v.made u);
}
step_at-IsSingle t waits o none s e eo eh v = record {
  absent = v.absent;
  present = v.present;
  excluded = λ u l. ground (arith, v.excluded u);
  unmade = λ u l. ground (arith, v.unmade u);
  made = λ u l. ground (arith, v.made u);
}
step_at-IsSingle t waits o (some w) s e eo eh v = v
step_at-IsSingle t second_test none h s e eo eh v = record {
  absent = v.absent;
  present = v.present;
  excluded = λ u l. ground (arith, v.excluded u, v.excluded t);
  unmade = λ u l. ground (arith, v.unmade u);
  made = λ u l. ground (arith, v.made u);
}
step_at-IsSingle t second_test (some o) h s e eo eh v = record {
  absent = v.absent;
  present = v.present;
  excluded = λ u l. ground (arith, v.excluded u, v.excluded t);
  unmade = λ u l. ground (arith, v.unmade u);
  made = λ u l. ground (arith, v.made u);
}
step_at-IsSingle t news o h s e eo eh v = record {
  absent = λ q. absurd (ground (arith, q));
  present = λ o q. ground (arith, v.absent, v.unmade t);
  excluded = λ u l. ground (arith, v.excluded u, v.excluded t);
  unmade = λ u l. ground (arith, v.unmade u, v.excluded u, v.excluded t);
  made = λ u l q. ground (arith, q);
}
step_at-IsSingle t unlocks o h s e eo eh v = record {
  absent = v.absent;
  present = v.present;
  excluded = λ u l. ground (arith, v.excluded u, v.excluded t);
  unmade = λ u l. ground (arith, v.unmade u);
  made = λ u l. ground (arith, v.made u, v.made t);
}
step_at-IsSingle t returns o h s e eo eh v = v

run_threads-IsSingle : (ts : List ℕ) (s : Shared) → IsSingle s → IsSingle (run_threads ts s)
unfolding run_threads step
run_threads-IsSingle [] s v = v
run_threads-IsSingle (t ∷ ts) s v =
    run_threads-IsSingle ts (step t s)
      (step_at-IsSingle t (s.place t) s.object s.holder s refl refl refl v)

begin-IsSingle : IsSingle begin
begin-IsSingle = record {
  absent = λ q. refl;
  present = λ o q. absurd (ground (arith, q));
  excluded = λ t q. absurd (ground (arith, q));
  unmade = λ t q. refl;
  made = λ t q. absurd (ground (arith, q));
}

-- However the steps of the threads are ordered, at most one pool is created, and every thread
-- that stands at `return` finds that one pool in the shared pointer.
pub run_threads_single :
    (ts : List ℕ)
    → let s = run_threads ts begin in
      (s.created ≤ 1) × ((t : ℕ) → s.place t ≡ returns → s.object ≡ some 0)
run_threads_single ts =
    by_object (run_threads ts begin) (run_threads-IsSingle ts begin begin-IsSingle)
  where
    by_object :
        (s : Shared)
        → IsSingle s
        → (s.created ≤ 1) × ((t : ℕ) → s.place t ≡ returns → s.object ≡ some 0)
    by_object s v = elim (Option-cases s.object) [
      | inl e ↦ (ground (arith, v.absent e), λ t r. absurd (v.made t (ground (arith, r)) e))
      | inr (o, e) ↦ (omega (arith, (v.present o e).1), λ t r. e ∙ ap some (v.present o e).0)
    ]
