-- ===== src/Worker/Local.antt =====
-- The statements of GRPC/src/Worker.cc that touch neither the goods nor the count of successes:
-- the answer, the lock and the record of failures.
use docker_compose_seckill_s.Base.{
  ℕ, Bool, true, false, Bytes, Option, ◌≡◌, refl, ltb, int_max, if◌then◌else◌,
}
use docker_compose_seckill_s.Services.{Services}
use docker_compose_seckill_s.Machine.{Machine, Worker, Outcome, M, when, modify}
use docker_compose_seckill_s.Machine.Calls.{write_lock, unlock, set_result, count_failure}
use docker_compose_seckill_s.Machine.Quiet.{
  Frame, Holds, Keeps, Keeps-bind, Keeps-pure, Keeps-gets, command-Keeps, is_ok-Keeps,
}
use docker_compose_seckill_s.Worker.Goods.{put_back, restock}

-- The frame does not look at the lock, the record of failures, or the workers.
pub record IsLocal {sv : Services} (fr : Frame sv) : Type 0 where
  pub after :
      (failed : ℕ) (locked : Bool) (workers : ℕ → Option Worker) (self : Worker) (m : Machine sv)
      → fr.see (record m {
        failed_count = failed;
        write_locked = locked;
        workers = workers;
        self = self;
      })
        ≡ fr.see m

pub Holds-if :
    {sv : Services} {A : Type 0} (P : A → Machine sv → Type 0) (b : Bool) (x y : Outcome sv A)
    → Holds P x
    → Holds P y
    → Holds P (if b then x else y)
Holds-if P true x y h k = h
Holds-if P false x y h k = k

module _ (sv : Services) {fr : Frame sv} (local : IsLocal fr) where
  pub set_result-Keeps : (t : Bytes) → Keeps fr (set_result sv t)
  unfolding set_result
  set_result-Keeps t = record { apply = λ m. record { apply = local.after _ _ _ _ m } }

  pub write_lock-Keeps : Keeps fr (write_lock sv)
  unfolding write_lock
  write_lock-Keeps = record {
    apply = λ m. record { apply = Holds-if _ m.write_locked _ _ refl (local.after _ _ _ _ m) };
  }

  pub unlock-Keeps : Keeps fr (unlock sv)
  unfolding unlock
  unlock-Keeps = record { apply = λ m. record { apply = local.after _ _ _ _ m } }

  pub count_failure-Keeps : Keeps fr (count_failure sv)
  unfolding count_failure
  count_failure-Keeps = record {
    apply = λ m. record {
      apply = Holds-if _ (ltb m.failed_count int_max) _ _ (local.after _ _ _ _ m) refl;
    };
  }

  clear-Keeps : Keeps fr (modify λ m. record m { failed_count = 0 })
  clear-Keeps = record { apply = λ m. record { apply = local.after _ _ _ _ m } }

  when-Keeps : (b : Bool) {act : M sv (Unit {0})} → Keeps fr act → Keeps fr (when b act)
  when-Keeps true k = k
  when-Keeps false k = Keeps-pure tt

  put_back-Keeps :
      (fuel : ℕ) (conn : Option ℕ) (failed : ℕ) → Keeps fr (put_back sv fuel conn failed)
  unfolding put_back
  put_back-Keeps fuel conn failed =
      Keeps-bind (command-Keeps sv conn _ _)
        λ reply. Keeps-bind (is_ok-Keeps sv reply) λ ok. when-Keeps ok clear-Keeps

  pub restock-Keeps : (fuel : ℕ) (conn : Option ℕ) → Keeps fr (restock sv fuel conn)
  unfolding restock
  restock-Keeps fuel conn = Keeps-bind write_lock-Keeps λ _.
      Keeps-bind (Keeps-gets (λ m. m.failed_count))
        λ failed. Keeps-bind (when-Keeps _ (put_back-Keeps fuel conn failed)) λ _. unlock-Keeps
