-- ===== src/Worker/Life/Process.antt =====
-- GRPC/src/Worker.cc: what `Proceed` does in the states PROCESS and FINISH.
use docker_compose_seckill_s.Base.{ℕ, ◌+◌, ◌≡◌, refl, ap, ◌∙◌, false, [], none, some, arith}
use docker_compose_seckill_s.Services.{Services}
use docker_compose_seckill_s.Machine.{Machine, Worker, process, finish, modify}
use docker_compose_seckill_s.Machine.Quiet.{
  books_pools, Books, books, Ensures, IsQuiet, Keeps-bind, quiet_then, Ensures-bind, Ensures-gets,
  Ensures-map, command-Keeps, redis_connect-Keeps, mysql_connect-Keeps, redis_close-Keeps,
  mysql_close-Keeps,
}
use docker_compose_seckill_s.Worker.Proceed.{
  update, proceed_create, new_worker, set_finish, load_self, delete_self, proceed_process,
  proceed_finish, save_self,
}
use docker_compose_seckill_s.Worker.Verdict.{Verdict, Verdict-between}
use docker_compose_seckill_s.Worker.Answer.{answer-Verdict}

-- The worker that `new Worker(…)` leaves waiting.
abbrev pub waiting_worker : Worker
waiting_worker = record {
  status = process;
  request = record { usrname = []; usrkey = [] };
  response = [];
}

abbrev finishing : Books → Books
finishing b = record b { self = record (b.self) { status = finish } }

abbrev pub with_waiting : Books → Books
with_waiting b = record b {
  workers = update b.workers b.next_worker (some waiting_worker);
  next_worker = b.next_worker + 1;
}

-- The books when `Proceed` begins to answer: the worker is on its way to the end, and a new one
-- waits.
abbrev pub started : Books → Books
started b = with_waiting (finishing b)

module _ (sv : Services) (fuel : ℕ) where
  pub new_worker-books :
      (m : Machine sv) → Ensures (new_worker sv fuel) m (λ _ m'. books m' ≡ with_waiting (books m))
  unfolding new_worker proceed_create
  new_worker-books m = record { apply = refl }

  set_finish-books :
      (m : Machine sv) → Ensures (set_finish sv fuel) m (λ _ m'. books m' ≡ finishing (books m))
  unfolding set_finish
  set_finish-books m = record { apply = refl }

  sent-IsQuiet :
      (this : ℕ)
      → IsQuiet (modify {sv = sv} λ m. record m { world = sv.finish this m.self.response m.world })
  sent-IsQuiet this = record { apply = λ m. record { apply = refl } }

  pub proceed_process-Verdict :
      (this : ℕ) (m : Machine sv)
      → m.write_locked ≡ false
      → Ensures (proceed_process sv fuel this) m (λ _ m'. Verdict (started (books m)) (books m'))
  unfolding proceed_process
  proceed_process-Verdict this m free =
      quiet_then (redis_connect-Keeps sv (books_pools sv)) λ redis m1 e1.
        quiet_then (mysql_connect-Keeps sv (books_pools sv)) λ mysql m2 e2.
          Ensures-bind (set_finish-books m2) λ _ m3 e3.
            quiet_then (command-Keeps sv redis _ _) λ _ m4 e4.
              Ensures-bind (new_worker-books m4) λ _ m5 e5.
                Ensures-bind (Ensures-gets (λ x. x.self.request) m5) λ request m6 g.
                  Ensures-bind
                    (answer-Verdict sv fuel request.usrname request.usrkey redis mysql m6
                      (ground arith))
                    λ _ m7 v. quiet_then (redis_close-Keeps sv (books_pools sv) redis) λ _ m8 e8.
                      quiet_then (mysql_close-Keeps sv (books_pools sv) mysql) λ _ m9 e9.
                        Ensures-map ((sent-IsQuiet this).apply m9) λ _ m10 e10.
                          Verdict-between
                            (g.1 ∙ e5 ∙ ap with_waiting (e4 ∙ e3 ∙ ap finishing (e2 ∙ e1)))
                            (e10 ∙ e9 ∙ e8) v

  pub proceed_finish-IsQuiet : IsQuiet (proceed_finish sv fuel)
  unfolding proceed_finish
  proceed_finish-IsQuiet = Keeps-bind (redis_connect-Keeps sv (books_pools sv)) λ redis.
      Keeps-bind (command-Keeps sv redis _ _) λ _. redis_close-Keeps sv (books_pools sv) redis

  pub load_self-books :
      (w : Worker) (m : Machine sv)
      → Ensures (load_self sv fuel w) m (λ _ m'. books m' ≡ record (books m) { self = w })
  unfolding load_self
  load_self-books w m = record { apply = refl }

  pub save_self-books :
      (this : ℕ) (m : Machine sv)
      → Ensures
          (save_self sv fuel this)
          m
          (λ _ m'. books m' ≡ record (books m) { workers = update m.workers this (some m.self) })
  unfolding save_self
  save_self-books this m = record { apply = refl }

  pub delete_self-books :
      (this : ℕ) (m : Machine sv)
      → Ensures
          (delete_self sv fuel this)
          m
          (λ _ m'. books m' ≡ record (books m) { workers = update m.workers this none })
  unfolding delete_self
  delete_self-books this m = record { apply = refl }
