-- ===== src/Worker/Counters/Lost.antt =====
-- GRPC/src/Worker.cc: without a lock successes are lost.
use docker_compose_seckill_s.Base.{
  ℕ, zero, suc, ◌+◌, ◌<◌, ◌≡◌, refl, subst, sym, List, [], ◌∷◌, ◌++◌, arith,
}
use docker_compose_seckill_s.Worker.Counters.{
  idle, holds, counted, Counter, move, success_at, run_success, begin,
}

-- The threads `n - 1`, …, 0.
abbrev pub down_from : ℕ → List ℕ
down_from zero = []
down_from (suc n) = n ∷ down_from n

run_success-append :
    (ts us : List ℕ) (s : Counter) → run_success (ts ++ us) s ≡ run_success us (run_success ts s)
unfolding run_success
run_success-append [] us s = refl
run_success-append (t ∷ ts) us s = run_success-append ts us (success_at t (s.place t) s)

-- All threads read.
abbrev read_by : ℕ → Counter → Counter
read_by t s = record s { place = move t (holds s.value) s.place }

abbrev written_by : ℕ → ℕ → Counter → Counter
written_by t k s = record s { value = k + 1; writes = s.writes + 1; place = move t counted s.place }

record HasRead (n : ℕ) (s s' : Counter) : Type 0 where
  value : s'.value ≡ s.value
  writes : s'.writes ≡ s.writes
  below : (u : ℕ) → u < n → s'.place u ≡ holds s.value
  above : (u : ℕ) → n < u + 1 → s'.place u ≡ s.place u

all_read :
    (n : ℕ) (s : Counter)
    → ((u : ℕ) → u < n → s.place u ≡ idle)
    → HasRead n s (run_success (down_from n) s)
unfolding run_success success_at
all_read zero s h = record {
  value = refl;
  writes = refl;
  below = λ u l. absurd (omega arith);
  above = λ u l. refl;
}
all_read (suc n) s h =
    let rest = all_read n (read_by n s) (λ u l. ground (arith, h u)) in
    subst (λ p. HasRead (suc n) s (run_success (down_from n) (success_at n p s)))
      (sym (h n (omega arith)))
      (record {
        value = rest.value;
        writes = rest.writes;
        below = λ u l. ground (arith, rest.below u, rest.above u);
        above = λ u l. ground (arith, rest.above u);
      })

-- What the writes leave.
abbrev Wrote : ℕ → ℕ → Counter → Counter → Type 0
Wrote n k s s' = (s'.value ≡ k + 1) × (s'.writes ≡ s.writes + n)

-- The first of the threads that write what they read, and the others after it.
write_first :
    (n k : ℕ) (s : Counter)
    → s.place n ≡ holds k
    → Wrote n k (written_by n k s) (run_success (down_from n) (written_by n k s))
    → Wrote (suc n) k s (run_success (down_from (suc n)) s)
unfolding run_success success_at
write_first n k s e (value, writes) =
    subst (λ p. Wrote (suc n) k s (run_success (down_from n) (success_at n p s))) (sym e)
      (value, omega (arith, writes))

all_write :
    (n k : ℕ) (s : Counter)
    → ((u : ℕ) → u < n → s.place u ≡ holds k)
    → s.value ≡ k + 1
    → Wrote n k s (run_success (down_from n) s)
unfolding run_success
all_write zero k s h e = (e, omega arith)
all_write (suc n) k s h e =
    write_first n k s (h n (omega arith))
      (all_write n k (written_by n k s) (λ u l. ground (arith, h u)) refl)

-- For every number of threads there is an order in which each of them carries out its
-- `++ *successNum_` and the counter is raised by one only: all read before the first one writes.
pub run_success_lost :
    (n v : ℕ)
    → let s = run_success (down_from (suc n) ++ down_from (suc n)) (begin v) in
      (s.value ≡ v + 1) × (s.writes ≡ n + 1)
run_success_lost n v =
    let all = all_read (suc n) (begin v) (λ u l. refl) in
    let read = run_success (down_from (suc n)) (begin v) in
    let (value, writes) =
      write_first n v read (all.below n (omega arith))
        (all_write n v (written_by n v read) (λ u l. ground (arith, all.below u)) refl) in
    subst (λ (s : Counter). (s.value ≡ v + 1) × (s.writes ≡ n + 1))
      (sym (run_success-append (down_from (suc n)) (down_from (suc n)) (begin v)))
      (value, omega (arith, writes, all.writes))
