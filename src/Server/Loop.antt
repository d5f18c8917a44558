-- ===== src/Server/Loop.antt =====
-- GRPC/src/seckill_server.cc: what the loop of `HandleRPCS` keeps, and where it turns in place.
use docker_compose_seckill_s.Base.{
  ℕ, zero, suc, ◌≡◌, refl, sym, ap, subst, ◌∙◌, false, Option, none, some, arith,
}
use native.Mathlib.Decide.{ℕ_discrete}
use docker_compose_seckill_s.Services.{Services, Request, Event}
use docker_compose_seckill_s.Machine.{Machine, Worker, process, M}
use docker_compose_seckill_s.Machine.Quiet.{
  books_pools, Books, books, Ensures, quiet_then, Ensures-bind, Ensures-if, Ensures-map,
}
use docker_compose_seckill_s.Worker.Proceed.{update}
use docker_compose_seckill_s.Worker.Life.{
  IsAlive, proceed-IsAlive, new_worker-books, waiting_worker, with_waiting,
}
use docker_compose_seckill_s.Server.Keep.{gate_closed-Keeps, cq_next-Keeps}
use docker_compose_seckill_s.Server.Serve.{
  deliver, receive, dispatch, handle_rpc, handle_rpcs, init_counters, run_start, run,
}

module _ (sv : Services) (fuel : ℕ) where
  abbrev Lives : M sv (Unit {0}) → Machine sv → Type 0
  Lives act m = Ensures act m (λ _ m'. IsAlive (books m'))

  delivered-IsAlive :
      (b : Books) (tag : ℕ) (request : Request) (w : Worker)
      → IsAlive b
      → b.workers tag ≡ some w
      → IsAlive
          (record b { workers = update b.workers tag (some (record w { request = request })) })
  delivered-IsAlive b tag request w alive found = record {
    waiting = alive.waiting;
    waits = by_tag (ℕ_discrete tag alive.waiting);
    others = λ i x q ne. ground (arith, alive.others i x, alive.others tag w found);
    below = λ i x q. ground (arith, alive.below i x, alive.below tag w found);
    free = alive.free;
  }
    where
      by_tag :
          Dec (tag ≡ alive.waiting)
          → (x : Worker) × (update b.workers tag
                (some (record w { request = request }))
                alive.waiting
              ≡ some x)
            × (x.status ≡ process)
      by_tag (yes e) = (record w { request = request }, ground arith, ground (arith, alive.waits))
      by_tag (no ne) = (alive.waits.0, ground (arith, alive.waits), alive.waits.2)

  receive-IsAlive :
      (tag : ℕ) (r : Option Request) (o : Option Worker) (m : Machine sv)
      → IsAlive (books m)
      → m.workers tag ≡ o
      → Lives (receive sv fuel tag r o) m
  unfolding receive deliver
  receive-IsAlive tag (some request) (some w) m alive e = record {
    apply = delivered-IsAlive (books m) tag request w alive e;
  }
  receive-IsAlive tag none o m alive e = record { apply = alive }
  receive-IsAlive tag (some request) none m alive e = record { apply = alive }

  dispatch-IsAlive :
      (event : Option Event) (m : Machine sv) → IsAlive (books m) → Lives (dispatch sv fuel event) m
  unfolding dispatch
  dispatch-IsAlive none m alive = record { apply = refl }
  dispatch-IsAlive (some event) m alive =
      Ensures-if event.ok
        (record {
          apply =
              (Ensures-bind
                (receive-IsAlive event.tag event.arrived (m.workers event.tag) m alive refl)
                λ _ m1 a1. proceed-IsAlive sv fuel event.tag m1 a1).apply;
        })
        (record { apply = refl })

  handle_rpc-IsAlive : (m : Machine sv) → IsAlive (books m) → Lives (handle_rpc sv fuel) m
  unfolding handle_rpc
  handle_rpc-IsAlive m alive =
      quiet_then (gate_closed-Keeps sv fuel (books_pools sv)) λ closed m1 e1.
        Ensures-if closed (record { apply = subst IsAlive (sym e1) alive })
          (quiet_then (cq_next-Keeps sv fuel (books_pools sv))
            λ event m2 e2. dispatch-IsAlive event m2 (subst IsAlive (sym (e2 ∙ e1)) alive))

  handle_rpcs-IsAlive :
      (rounds : ℕ) (m : Machine sv) → IsAlive (books m) → Lives (handle_rpcs sv fuel rounds) m
  unfolding handle_rpcs
  handle_rpcs-IsAlive zero m alive = record { apply = alive }
  handle_rpcs-IsAlive (suc rounds) m alive =
      Ensures-bind (handle_rpc-IsAlive m alive) λ _ m1 a1. handle_rpcs-IsAlive rounds m1 a1

  abbrev initial : Books → Books
  initial b = record b { failed_count = 0; success_num = 0; write_locked = false }

  init_counters-books :
      (m : Machine sv) → Ensures (init_counters sv fuel) m (λ _ m'. books m' ≡ initial (books m))
  unfolding init_counters
  init_counters-books m = record { apply = refl }

  initial-IsAlive :
      (b : Books) → ((i : ℕ) → b.workers i ≡ none) → IsAlive (with_waiting (initial b))
  initial-IsAlive b empty = record {
    waiting = b.next_worker;
    waits = (waiting_worker, ground arith, refl);
    others = λ i x q ne. absurd (ground (arith, empty i));
    below = λ i x q. ground (arith, empty i);
    free = refl;
  }

  run_start-IsAlive :
      (m : Machine sv) → ((i : ℕ) → m.workers i ≡ none) → Lives (run_start sv fuel) m
  unfolding run_start
  run_start-IsAlive m empty = Ensures-bind (init_counters-books m) λ _ m1 e1.
      Ensures-map (new_worker-books sv fuel m1)
        λ _ m2 e2. subst IsAlive (sym (e2 ∙ ap with_waiting e1)) (initial-IsAlive (books m) empty)

  -- Whatever the completion queue and the servers answer: if no worker exists when `Run` begins,
  -- then after every number of rounds that the loop comes through, one worker waits for a
  -- request, every other one has answered "1" or "0" and only waits to be deleted, and the lock
  -- is free; no request is tried more often than `RETRYCOUNT`.
  pub run-IsAlive :
      (rounds : ℕ) (m : Machine sv)
      → ((i : ℕ) → m.workers i ≡ none)
      → Ensures (run sv fuel rounds) m (λ _ m'. IsAlive (books m'))
  unfolding run
  run-IsAlive rounds m empty =
      Ensures-bind (run_start-IsAlive m empty) λ _ m1 a1. handle_rpcs-IsAlive rounds m1 a1
