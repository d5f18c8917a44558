-- ===== src/Tests/Counters.antt =====
-- The theorems about the shared counters, at concrete inputs.
use docker_compose_seckill_s.Base.{ℕ, zero, suc, int_max, arith, ◌≤◌, ◌+◌, ◌≡◌, List, [], ◌∷◌, ◌++◌}
use docker_compose_seckill_s.Worker.Counters.{Task, raises, clears, run_success, run_failure, begin}
use docker_compose_seckill_s.Worker.Counters.Locked.{run_failure_exact}
use docker_compose_seckill_s.Worker.Counters.Lost.{down_from, run_success_lost}

-- Two threads at the lock, one of which has to wait; the other one clears the counter.
abbrev orders : List ℕ
orders = 0 ∷ 1 ∷ 0 ∷ 1 ∷ 0 ∷ 0 ∷ 1 ∷ 1 ∷ 1 ∷ 1 ∷ []

abbrev task : ℕ → Task
task zero = clears
task (suc t) = raises

run_failure_exact_example :
    let s = run_failure task orders (begin 3) in (s.value ≡ s.base + s.writes) × (s.value ≤ int_max)
run_failure_exact_example = run_failure_exact task 3 orders (omega arith)

-- Twenty threads.
run_success_lost_example :
    let s = run_success (down_from 20 ++ down_from 20) (begin 30) in
    (s.value ≡ 31) × (s.writes ≡ 20)
run_success_lost_example = run_success_lost 19 30
