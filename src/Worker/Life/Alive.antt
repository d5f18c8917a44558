-- ===== src/Worker/Life/Alive.antt =====
-- GRPC/src/Worker.cc: what holds of the workers between two events.
use docker_compose_seckill_s.Base.{
  ℕ, ◌<◌, ◌≡◌, ◌≢◌, refl, ap, false, ◌⊎◌, inl, inr, none, some, codes, arith, if◌then◌else◌, ◌==◌,
}
use native.Mathlib.Decide.{ℕ_discrete}
use docker_compose_seckill_s.Machine.{Worker, process, finish}
use docker_compose_seckill_s.Machine.Quiet.{Books}
use docker_compose_seckill_s.Worker.Proceed.{update}
use docker_compose_seckill_s.Worker.Verdict.{Verdict, sold, refused, recorded, restocked}
use docker_compose_seckill_s.Worker.Life.Process.{started, waiting_worker}

-- What holds between two events: one worker waits for a request, every other one has answered
-- "1" or "0" and is to be deleted, and the lock is free.
pub record IsAlive (b : Books) : Type 0 where
  pub waiting : ℕ
  pub waits : (w : Worker) × (b.workers waiting ≡ some w) × (w.status ≡ process)
  pub others :
      (i : ℕ) (w : Worker)
      → b.workers i ≡ some w
      → i ≢ waiting
      → (w.status ≡ finish) × ((w.response ≡ codes "1") ⊎ (w.response ≡ codes "0"))
  pub below : (i : ℕ) (w : Worker) → b.workers i ≡ some w → i < b.next_worker
  pub free : b.write_locked ≡ false

-- What a verdict leaves alone, and what it says of the answer.
pub Verdict-frame :
    (b c : Books)
    → Verdict b c
    → (c.workers ≡ b.workers)
      × (c.next_worker ≡ b.next_worker)
      × (c.write_locked ≡ b.write_locked)
      × (c.self.status ≡ b.self.status)
      × ((c.self.response ≡ codes "1") ⊎ (c.self.response ≡ codes "0"))
Verdict-frame b c (sold e) =
    (ground arith, ground arith, ground arith, ground arith, inl (ground arith))
Verdict-frame b c (refused e) =
    (ground arith, ground arith, ground arith, ground arith, inr (ground arith))
Verdict-frame b c (recorded e) =
    (ground arith, ground arith, ground arith, ground arith, inr (ground arith))
Verdict-frame b c (restocked p e) =
    (ground arith, ground arith, ground arith, ground arith, inr (ground arith))

module _ (b : Books) (alive : IsAlive b) (this : ℕ) (w : Worker)
    (found : b.workers this ≡ some w) where
  -- Only the waiting worker is in the state PROCESS.
  process-waiting : w.status ≡ process → this ≡ alive.waiting
  process-waiting e = elim (ℕ_discrete this alive.waiting) [
    | yes h ↦ h
    | no h ↦ absurd (ground (arith, alive.others this w found h))
  ]

  module _ (e : w.status ≡ process) (c : Books)
      (v : Verdict (started (record b { self = w })) c) where
    answered-workers :
        (i : ℕ)
        → update c.workers this (some c.self) i ≡ (
            if this == i
            then some c.self
            else if b.next_worker == i
            then some waiting_worker
            else b.workers i)
    answered-workers i = ap (λ ws. update ws this (some c.self) i) (Verdict-frame _ c v).0

    pub answered-IsAlive : IsAlive (record c { workers = update c.workers this (some c.self) })
    answered-IsAlive = record {
      waiting = b.next_worker;
      waits = (
        waiting_worker,
        ground (arith, answered-workers b.next_worker, alive.below this w found),
        refl,
      );
      others = λ i x q ne.
          ground
            (arith, answered-workers i, Verdict-frame _ c v, process-waiting e, alive.others i x);
      below = λ i x q. ground (
        arith,
        answered-workers i,
        Verdict-frame _ c v,
        alive.below i x,
        alive.below this w found,
      );
      free = ground (arith, Verdict-frame _ c v, alive.free);
    }

  pub deleted-IsAlive :
      w.status ≡ finish → IsAlive (record b { self = w; workers = update b.workers this none })
  deleted-IsAlive e = record {
    waiting = alive.waiting;
    waits = (alive.waits.0, ground (arith, alive.waits), alive.waits.2);
    others = λ i x q ne. alive.others i x (ground arith) ne;
    below = λ i x q. alive.below i x (ground arith);
    free = alive.free;
  }
