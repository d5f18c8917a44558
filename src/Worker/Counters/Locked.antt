-- ===== src/Worker/Counters/Locked.antt =====
-- GRPC/src/Worker.cc: under the lock no failure is lost.
use docker_compose_seckill_s.Base.{
  ℕ, suc, subst, ◌+◌, ◌≤◌, length, int_max, ◌≡◌, refl, Bool, true, false, List, [], ◌∷◌, Option,
  none, some, arith,
}
use docker_compose_seckill_s.Worker.Counters.{
  Place, idle, locked, holds, unlocks, counted, Counter, Task, raises, clears, tests, inside_lock,
  failure_at, run_failure, begin,
}

-- Between the lock and the end of `pthread_rwlock_unlock`.
abbrev inside : Place → Bool
inside idle = false
inside counted = false
inside _ = true

record IsExact (limit : ℕ) (s : Counter) : Type 0 where
  exact : s.value ≡ s.base + s.writes
  bounded : s.value ≤ limit
  excluded : (t : ℕ) → inside (s.place t) ≡ true → s.holder ≡ some t
  current : (t k : ℕ) → s.place t ≡ holds k → k ≡ s.value

inside_lock-IsExact :
    (limit t : ℕ) (x : Task) (s : Counter)
    → s.place t ≡ locked
    → IsExact limit s
    → IsExact (limit + 1) (inside_lock t x s)
unfolding inside_lock
inside_lock-IsExact limit t raises s e v = record {
  exact = v.exact;
  bounded = omega (arith, v.bounded);
  excluded = λ u l. ground (arith, v.excluded u, v.excluded t);
  current = λ u k l. ground (arith, v.current u k);
}
inside_lock-IsExact limit t clears s e v = record {
  exact = refl;
  bounded = omega arith;
  excluded = λ u l. ground (arith, v.excluded u, v.excluded t);
  current = λ u k l. ground (arith, v.current u k, v.excluded u, v.excluded t);
}
inside_lock-IsExact limit t tests s e v = record {
  exact = v.exact;
  bounded = omega (arith, v.bounded);
  excluded = λ u l. ground (arith, v.excluded u, v.excluded t);
  current = λ u k l. ground (arith, v.current u k);
}

module _ (task : ℕ → Task) where
  failure_at-IsExact :
      (limit t : ℕ) (p : Place) (h : Option ℕ) (s : Counter)
      → s.place t ≡ p
      → s.holder ≡ h
      → IsExact limit s
      → IsExact (limit + 1) (failure_at task t p h s)
  unfolding failure_at
  failure_at-IsExact limit t idle none s e eh v = record {
    exact = v.exact;
    bounded = omega (arith, v.bounded);
    excluded = λ u l. ground (arith, v.excluded u);
    current = λ u k l. ground (arith, v.current u k);
  }
  failure_at-IsExact limit t idle (some w) s e eh v = record {
    exact = v.exact;
    bounded = omega (arith, v.bounded);
    excluded = v.excluded;
    current = v.current;
  }
  failure_at-IsExact limit t locked h s e eh v = inside_lock-IsExact limit t (task t) s e v
  failure_at-IsExact limit t (holds k) h s e eh v = record {
    exact = ground (arith, v.exact, v.current t k e);
    bounded = omega (arith, v.bounded, v.current t k e);
    excluded = λ u l. ground (arith, v.excluded u, v.excluded t);
    current = λ u j l. ground (arith, v.current u j, v.excluded u, v.excluded t);
  }
  failure_at-IsExact limit t unlocks h s e eh v = record {
    exact = v.exact;
    bounded = omega (arith, v.bounded);
    excluded = λ u l. ground (arith, v.excluded u, v.excluded t);
    current = λ u k l. ground (arith, v.current u k);
  }
  failure_at-IsExact limit t counted h s e eh v = record {
    exact = v.exact;
    bounded = omega (arith, v.bounded);
    excluded = v.excluded;
    current = v.current;
  }

  run_failure-IsExact :
      (limit : ℕ) (ts : List ℕ) (s : Counter)
      → IsExact limit s
      → IsExact (limit + length ts) (run_failure task ts s)
  unfolding run_failure
  run_failure-IsExact limit [] s v = record {
    exact = v.exact;
    bounded = omega (arith, v.bounded);
    excluded = v.excluded;
    current = v.current;
  }
  run_failure-IsExact limit (t ∷ ts) s v =
      subst (λ k. IsExact k (run_failure task ts (failure_at task t (s.place t) s.holder s)))
        {x = limit + 1 + length ts} {y = limit + suc (length ts)} (omega arith)
        (run_failure-IsExact (limit + 1) ts (failure_at task t (s.place t) s.holder s)
          (failure_at-IsExact limit t (s.place t) s.holder s refl refl v))

  begin-IsExact : (n : ℕ) → IsExact n (begin n)
  begin-IsExact n = record {
    exact = ground arith;
    bounded = ground arith;
    excluded = λ t l. absurd (ground (arith, l));
    current = λ t k l. absurd (ground (arith, l));
  }

  -- Whatever the threads take the lock for, and however their steps are ordered, as long as there
  -- are not so many that an `int` could overflow: `*failedCount_` is what it was at the beginning,
  -- or 0 if it was cleared, and one more for each `++` that was carried out since; no `++`
  -- overflows.
  pub run_failure_exact :
      (n : ℕ) (ts : List ℕ)
      → n + length ts ≤ int_max
      → let s = run_failure task ts (begin n) in (s.value ≡ s.base + s.writes) × (s.value ≤ int_max)
  run_failure_exact n ts few =
      let v = run_failure-IsExact n ts (begin n) (begin-IsExact n) in
      (v.exact, omega (arith, v.bounded, few))
