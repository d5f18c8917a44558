-- ===== src/Worker/Answered.antt =====
-- GRPC/src/Worker.cc: a request that woke its worker is answered, and the answer is true, but for commits that fail.
use docker_compose_seckill_s.Base.{
  ℕ, ◌+◌, ◌≤◌, ◌<◌, ◌≡◌, refl, sym, subst, ap, ◌∙◌, Option, some, codes, int_max, ◌⊎◌, inl, inr,
  false, arith,
}
use docker_compose_seckill_s.Services.{Services}
use docker_compose_seckill_s.Machine.{Machine, Worker, process, finish}
use docker_compose_seckill_s.Machine.Quiet.{
  Books, books, Ensures, Holds, Ensures-bind, Ensures-map, Ensures-both,
}
use docker_compose_seckill_s.Worker.Proceed.{update, proceed_as, proceed_at, proceed}
use docker_compose_seckill_s.Worker.Stock.{GoodsDb, CommitFails}
use docker_compose_seckill_s.Worker.Verdict.{Verdict, sold, refused, recorded, restocked}
use docker_compose_seckill_s.Worker.Life.{
  started, Verdict-frame, load_self-books, save_self-books, proceed_process-Verdict,
}
use docker_compose_seckill_s.Worker.Shop.Spec.{
  Shop, Serves, sells, counts, refuses, one_sold, one_counted,
}
use docker_compose_seckill_s.Worker.Shop.Laws.{Apart}
use docker_compose_seckill_s.Worker.Shop.Frames.{shop}
use docker_compose_seckill_s.Worker.Shop.Life.{proceed-Serves}

-- The worker is done, and what it answered is what happened to the goods, unless a commit failed.
pub data IsAnswered (Fails : Type 0) (w : Option Worker) (s s' : Shop) : Type 0 where
  bought :
      (x : Worker)
      → w ≡ some x
      → x.status ≡ finish
      → x.response ≡ codes "1"
      → 0 < s.goods.stock
      → (rows : ℕ) → s' ≡ one_sold rows s
      → IsAnswered Fails w s s'
  miscounted :
      (x : Worker)
      → w ≡ some x
      → x.status ≡ finish
      → x.response ≡ codes "1"
      → 0 < s.goods.stock
      → Fails
      → s' ≡ one_counted s
      → IsAnswered Fails w s s'
  turned_away :
      (x : Worker)
      → w ≡ some x
      → x.status ≡ finish
      → x.response ≡ codes "0"
      → s' ≡ s
      → IsAnswered Fails w s s'

-- What the books say of the worker and of the successes.
abbrev Tally : Worker → ℕ → ℕ → Type 0
Tally x before after =
    ((x.response ≡ codes "1") × (after ≡ before + 1))
    ⊎ ((x.response ≡ codes "0") × (after ≡ before))

abbrev Recorded : ℕ → Books → Books → Type 0
Recorded this b c =
    (x : Worker) × (c.workers this ≡ some x)
    × (x.status ≡ finish)
    × Tally x b.success_num c.success_num

Verdict-Tally : (b c : Books) → Verdict b c → Tally c.self b.success_num c.success_num
Verdict-Tally b c (sold e) =
    inl (ap (λ (x : Books). x.self.response) e, ap (λ (x : Books). x.success_num) e)
Verdict-Tally b c (refused e) =
    inr (ap (λ (x : Books). x.self.response) e, ap (λ (x : Books). x.success_num) e)
Verdict-Tally b c (recorded e) =
    inr (ap (λ (x : Books). x.self.response) e, ap (λ (x : Books). x.success_num) e)
Verdict-Tally b c (restocked p e) =
    inr (ap (λ (x : Books). x.self.response) e, ap (λ (x : Books). x.success_num) e)

update_same : (workers : ℕ → Option Worker) (i : ℕ) (w : Option Worker) → update workers i w i ≡ w
update_same workers i w = ground arith

module _ (sv : Services) (fuel this : ℕ) (w : Worker) (m : Machine sv) where
  abbrev After : Unit {0} → Machine sv → Type 0
  After _ m' = Recorded this (books m) (books m')

  process-Recorded :
      m.write_locked ≡ false
      → Ensures (proceed_as sv fuel this w process) m (λ _ m'. Recorded this (books m) (books m'))
  unfolding proceed_as
  process-Recorded free = Ensures-bind (load_self-books sv fuel w m) λ _ m1 e1.
      Ensures-bind (proceed_process-Verdict sv fuel this m1 (ground arith)) λ _ m2 v.
        Ensures-map (save_self-books sv fuel this m2) λ _ m3 e3. (
          m2.self,
          ap (λ (b : Books). b.workers this) e3 ∙ update_same m2.workers this (some m2.self),
          (Verdict-frame (started (books m1)) (books m2) v).3,
          subst (λ n. Tally m2.self n m3.success_num) (ap (λ (b : Books). b.success_num) e1)
              (subst (Tally m2.self m1.success_num) (sym (ap (λ (b : Books). b.success_num) e3))
                (Verdict-Tally (started (books m1)) (books m2) v)),
        )

  proceed-Recorded :
      m.workers this ≡ some w
      → w.status ≡ process
      → m.write_locked ≡ false
      → Ensures (proceed sv fuel this) m (λ _ m'. Recorded this (books m) (books m'))
  unfolding proceed proceed_at
  proceed-Recorded found status free = record {
    apply =
        subst (λ o. Holds After (proceed_at sv fuel this o m)) (sym found)
          (subst (λ s. Holds After (proceed_as sv fuel this w s m)) (sym status)
            (process-Recorded free).apply);
  }

-- A success is counted exactly where the shop counts one.
Recorded-IsAnswered :
    (Fails : Type 0) (this : ℕ) (b c : Books) (s s' : Shop)
    → s.sold ≡ b.success_num
    → s'.sold ≡ c.success_num
    → Recorded this b c
    → Serves Fails s s'
    → IsAnswered Fails (c.workers this) s s'
Recorded-IsAnswered F this b c s s' e e' (x, found, status, inl (one, n)) (sells rows left goods) =
    bought x found status one left rows goods
Recorded-IsAnswered F this b c s s' e e' (x, found, status, inl (one, n))
      (counts fails left goods) =
    miscounted x found status one left fails goods
Recorded-IsAnswered F this b c s s' e e' (x, found, status, inl (one, n)) (refuses goods) =
    absurd (omega (arith, ap (λ (y : Shop). y.sold) goods, n, e, e'))
Recorded-IsAnswered F this b c s s' e e' (x, found, status, inr (one, n)) (sells rows left goods) =
    absurd (omega (arith, ap (λ (y : Shop). y.sold) goods, n, e, e'))
Recorded-IsAnswered F this b c s s' e e' (x, found, status, inr (one, n))
      (counts fails left goods) =
    absurd (omega (arith, ap (λ (y : Shop). y.sold) goods, n, e, e'))
Recorded-IsAnswered F this b c s s' e e' (x, found, status, inr (one, n)) (refuses goods) =
    turned_away x found status one goods

module _ {sv : Services} (db : GoodsDb sv) (apart : Apart db) (fuel : ℕ) (two : 2 ≤ fuel) where
  -- On a database that keeps the laws of GoodsDb, that no other call touches, with at least two
  -- rounds for the rows of a result, a stock that fits an `int` and the lock free: a worker in the
  -- state PROCESS that comes back from `Proceed`, whatever Redis answered and whatever faults may
  -- stop others, is in the state FINISH. It has answered "1", and then an item was in stock, and
  -- either was sold and one success counted, or a commit can fail and only the success was counted;
  -- or "0", and then stock, orders and successes are as before.
  pub proceed-IsAnswered :
      (this : ℕ) (w : Worker) (m : Machine sv)
      → m.workers this ≡ some w
      → w.status ≡ process
      → m.write_locked ≡ false
      → (db.committed m.world).stock ≤ int_max
      → Ensures
          (proceed sv fuel this)
          m
          (λ _ m'. IsAnswered (CommitFails sv) (m'.workers this) (shop db m) (shop db m'))
  proceed-IsAnswered this w m found status free small =
      Ensures-map
        (Ensures-both (proceed-Recorded sv fuel this w m found status free)
          (proceed-Serves db apart fuel two this m small))
        λ _ m' p.
          Recorded-IsAnswered (CommitFails sv) this (books m) (books m') (shop db m) (shop db m')
            refl refl p.0 p.1
