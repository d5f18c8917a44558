-- ===== src/Worker/Life.antt =====
-- GRPC/src/Worker.cc: the life of a worker. `Proceed` makes the worker that waits for the next
-- request, answers its own, and in the end deletes itself.
pub mod Process
pub mod Alive
pub use Process.*
pub use Alive.*
use docker_compose_seckill_s.Base.{
  ℕ, ◌≡◌, refl, sym, ap, subst, ◌∙◌, Option, none, some, arith, if◌then◌else◌,
}
use native.Mathlib.Decide.{ℕ_discrete}
use docker_compose_seckill_s.Services.{Services}
use docker_compose_seckill_s.Machine.{Machine, Worker, WorkerStatus, create, process, finish, M}
use docker_compose_seckill_s.Machine.Quiet.{
  Books, books, Ensures, quiet_then, Ensures-bind, Ensures-map,
}
use docker_compose_seckill_s.Worker.Proceed.{update, proceed_as, proceed_at, proceed}
use docker_compose_seckill_s.Worker.Verdict.{Verdict}

module _ (sv : Services) (fuel : ℕ) where
  module _ (this : ℕ) (m : Machine sv) (alive : IsAlive (books m)) where
    abbrev StaysAlive : M sv (Unit {0}) → Type 0
    StaysAlive act = Ensures act m (λ _ m'. IsAlive (books m'))

    proceed_as-IsAlive :
        (w : Worker) (s : WorkerStatus)
        → m.workers this ≡ some w
        → w.status ≡ s
        → StaysAlive (proceed_as sv fuel this w s)
    unfolding proceed_as
    proceed_as-IsAlive w create found e =
        absurd
          (ground (arith, ℕ_discrete this alive.waiting, alive.waits, alive.others this w found))
    proceed_as-IsAlive w process found e = Ensures-bind (load_self-books sv fuel w m) λ _ m1 e1.
        Ensures-bind (proceed_process-Verdict sv fuel this m1 (ground (arith, alive.free)))
          λ _ m2 v. Ensures-map (save_self-books sv fuel this m2) λ _ m3 e3.
            subst IsAlive (sym e3) (
              answered-IsAlive (books m) alive this w found e (books m2)
                (subst (λ b. Verdict (started b) (books m2)) e1 v))
    proceed_as-IsAlive w finish found e = Ensures-bind (load_self-books sv fuel w m) λ _ m1 e1.
        quiet_then (proceed_finish-IsQuiet sv fuel) λ _ m2 e2.
          Ensures-map (delete_self-books sv fuel this m2) λ _ m3 e3.
            subst IsAlive
              (sym (
                e3
                ∙ ap {A = Books} (λ b. record b { workers = update b.workers this none })
                    (e2 ∙ e1)))
              (deleted-IsAlive (books m) alive this w found e)

    proceed_at-IsAlive :
        (o : Option Worker) → m.workers this ≡ o → StaysAlive (proceed_at sv fuel this o)
    unfolding proceed_at
    proceed_at-IsAlive none e = record { apply = refl }
    proceed_at-IsAlive (some w) e = proceed_as-IsAlive w w.status e refl

    -- If one worker waits for a request, every other one has answered "1" or "0" and only waits to
    -- be deleted, no address is in use that was not handed out, and the lock is free, then whatever
    -- event a worker is woken for, and whatever the servers answer, `Proceed` makes no more
    -- attempts than `RETRYCOUNT`, and if it returns then all of this holds again.
    pub proceed-IsAlive : Ensures (proceed sv fuel this) m (λ _ m'. IsAlive (books m'))
    unfolding proceed
    proceed-IsAlive = record { apply = (proceed_at-IsAlive (m.workers this) refl).apply }
