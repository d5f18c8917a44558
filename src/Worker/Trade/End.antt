-- ===== src/Worker/Trade/End.antt =====
-- GRPC/src/Worker.cc: how the transaction ends.
use docker_compose_seckill_s.Base.{
  ℕ, ◌+◌, ◌-◌, ◌≤◌, ◌<◌, ◌≡◌, refl, sym, ap, ◌∙◌, Bool, true, false, some, int_max, codes, lt→ltb,
  ◌⊎◌, inl, inr, subst, arith,
}
use docker_compose_seckill_s.Services.{Services}
use docker_compose_seckill_s.Machine.{Machine, ◌>>◌}
use docker_compose_seckill_s.Machine.Calls.{
  autocommit, commit, rollback, write_lock, unlock, set_result, count_failure, count_success,
}
use docker_compose_seckill_s.Machine.Quiet.{Books, books}
use docker_compose_seckill_s.Machine.Returns.{Returns, Returns-bind, Returns-map, Returns-step}
use docker_compose_seckill_s.Worker.Order.{end_order}
use docker_compose_seckill_s.Worker.Stock.{Goods, GoodsDb, CommitFails}
use docker_compose_seckill_s.Worker.Verdict.{answered}
use docker_compose_seckill_s.Worker.Trade.Statements.{
  rollback_lem, write_lock_lem, count_failure_lem,
}

-- How the transaction ended: an item was sold, or the commit failed, which is answered and
-- counted in the same way, or nothing was sold. `Rows` says what numbers of orders may be added.
pub data Trade {sv : Services} (db : GoodsDb sv) (Rows : ℕ → Type 0) (m m' : Machine sv)
    : Type 0 where
  traded :
      (rows : ℕ)
      → Rows rows
      → 0 < (db.committed m.world).stock
      → db.committed m'.world ≡ record {
        stock = (db.committed m.world).stock - 1;
        orders = (db.committed m.world).orders + rows;
      }
      → books m' ≡ record (answered (codes "1") (books m)) { success_num = m.success_num + 1 }
      → Trade db Rows m m'
  lost :
      CommitFails sv
      → 0 < (db.committed m.world).stock
      → db.committed m'.world ≡ db.committed m.world
      → books m' ≡ record (answered (codes "1") (books m)) { success_num = m.success_num + 1 }
      → Trade db Rows m m'
  untraded :
      (failures : ℕ)
      → failures ≤ 1
      → db.committed m'.world ≡ db.committed m.world
      → books m'
        ≡ record (answered (codes "0") (books m)) { failed_count = m.failed_count + failures }
      → Trade db Rows m m'

-- What a commit leaves where something was: the new, or, if it failed, the old.
abbrev pub OneOf : {A : Type 0} → Type 0 → A → A → A → Type 0
OneOf Fails new old x = (x ≡ new) ⊎ (Fails × (x ≡ old))

pub OneOf-OneOf :
    {A Fails : Type 0} {new old x y z : A}
    → OneOf Fails new old x
    → OneOf Fails new old y
    → (z ≡ y) ⊎ (z ≡ x)
    → OneOf Fails new old z
OneOf-OneOf {A} {Fails} {new} {old} p q (inl e) = subst (OneOf Fails new old) (sym e) q
OneOf-OneOf {A} {Fails} {new} {old} p q (inr e) = subst (OneOf Fails new old) (sym e) p

module _ {sv : Services} (db : GoodsDb sv) (c : ℕ) where
  open db use {committed, view}

  -- What is committed after `commit`, and what the connection sees.
  pub commits_one :
      (w : sv.World)
      → OneOf (CommitFails sv) (view c w) (committed w) (committed (sv.mysql_commit c w).1)
        × OneOf (CommitFails sv) (view c w) (committed w) (view c (sv.mysql_commit c w).1)
  commits_one w = elim (db.commits c w) [
    | inl p ↦ (inl p.0, inl p.1)
    | inr p ↦ (inr ((c, w, p.0), p.1), elim p.2 [ inl e ↦ inl e | inr e ↦ inr ((c, w, p.0), e) ])
  ]

  pub closes_same :
      (g : Goods) (w : sv.World)
      → committed w ≡ g
      → view c w ≡ g
      → committed (sv.mysql_autocommit c true w) ≡ g
  closes_same g w p q = elim (db.ends c w) [ inl e ↦ e ∙ q | inr e ↦ e ∙ p ]

  module _ (fuel : ℕ) where
    module _ (m : Machine sv) (free : m.write_locked ≡ false) where
      end_order-sold :
          m.success_num < int_max
          → Returns (end_order sv fuel (some c) true) m (λ _ m'.
            OneOf (CommitFails sv) (view c m.world) (committed m.world) (committed m'.world)
            × OneOf (CommitFails sv) (view c m.world) (committed m.world) (view c m'.world)
            × (books m'
                ≡ record (answered (codes "1") (books m)) { success_num = m.success_num + 1 }))
      unfolding end_order commit set_result count_success
      end_order-sold room = record {
        apply =
            rw (lt→ltb m.success_num _ room)
              ((commits_one m.world).0, (commits_one m.world).1, refl);
      }

      end_order-failed :
          m.failed_count < int_max
          → Returns (end_order sv fuel (some c) false) m (λ _ m'.
            (committed m'.world ≡ committed m.world)
            × (view c m'.world ≡ committed m.world)
            × (books m'
                ≡ record (answered (codes "0") (books m)) { failed_count = m.failed_count + 1 }))
      unfolding end_order unlock set_result
      end_order-failed room = Returns-step (rollback sv (some c)) _ (rollback_lem db c m) (
          Returns-step (write_lock sv) _ (write_lock_lem db c _ free) (
            Returns-step (count_failure sv) _ (count_failure_lem db c _ room) (record {
              apply = (
                (db.rolls_back c m.world).0,
                (db.rolls_back c m.world).1,
                ap {B = Books}
                    (λ b. record (answered (codes "0") (books m)) {
                      failed_count = m.failed_count + 1;
                      write_locked = b;
                    })
                    (sym free),
              );
            })))

    -- After the transaction, `autocommit(ON)` has nothing left to make permanent.
    closed :
        (g : Goods) (b : Books) (m : Machine sv)
        → committed m.world ≡ g
        → view c m.world ≡ g
        → books m ≡ b
        → Returns
            (autocommit sv (some c) true)
            m
            (λ _ m'. (committed m'.world ≡ g) × (books m' ≡ b))
    unfolding autocommit
    closed g b m p v e = record { apply = (closes_same g m.world p v, e) }

    -- But for a commit that failed.
    closed_sold :
        (new old : Goods) (b : Books) (m : Machine sv)
        → OneOf (CommitFails sv) new old (committed m.world)
        → OneOf (CommitFails sv) new old (view c m.world)
        → books m ≡ b
        → Returns
            (autocommit sv (some c) true)
            m
            (λ _ m'. OneOf (CommitFails sv) new old (committed m'.world) × (books m' ≡ b))
    unfolding autocommit
    closed_sold new old b m p v e = record { apply = (OneOf-OneOf p v (db.ends c m.world), e) }

    module _ (Rows : ℕ → Type 0) (m m3 : Machine sv) (same_books : books m3 ≡ books m)
        (same_goods : committed m3.world ≡ committed m.world) (room : m.success_num < int_max)
        (room' : m.failed_count < int_max) (free : m.write_locked ≡ false) where
      sold_or_lost :
          (m5 : Machine sv) (rows : ℕ)
          → Rows rows
          → 0 < (committed m.world).stock
          → view c m3.world ≡ record {
            stock = (committed m.world).stock - 1;
            orders = (committed m.world).orders + rows;
          }
          → OneOf (CommitFails sv) (view c m3.world) (committed m3.world) (committed m5.world)
          → books m5 ≡ record (answered (codes "1") (books m)) { success_num = m.success_num + 1 }
          → Trade db Rows m m5
      sold_or_lost m5 rows one in_stock e (inl p) b = traded rows one in_stock (p ∙ e) b
      sold_or_lost m5 rows one in_stock e (inr (fails, p)) b =
          lost fails in_stock (p ∙ same_goods) b

      -- The end of the transaction, after both statements.
      pub end-Trade :
          (ok : Bool)
          → 0 < (committed m.world).stock
          → (ok ≡ true
              → (rows : ℕ) × Rows rows
                × (view c m3.world ≡ record {
                  stock = (committed m.world).stock - 1;
                  orders = (committed m.world).orders + rows;
                }))
          → Returns
              (do end_order sv fuel (some c) ok; autocommit sv (some c) true)
              m3
              (λ _ m'. Trade db Rows m m')
      end-Trade true in_stock seen =
          let (rows, one, e) = seen refl in
          Returns-bind (end_order-sold m3 (ground arith) (ground arith)) λ _ m4 p4.
            Returns-map (closed_sold _ _ _ m4 p4.0 p4.1 p4.2) λ _ m5 p5.
              sold_or_lost m5 rows one in_stock e p5.0 (
                p5.1
                ∙ ap {A = Books} {B = Books}
                    (λ b. record (answered (codes "1") b) { success_num = b.success_num + 1 })
                    same_books)
      end-Trade false in_stock seen =
          Returns-bind (end_order-failed m3 (ground arith) (ground arith)) λ _ m4 p4.
            Returns-map (closed _ _ m4 p4.0 p4.1 p4.2) λ _ m5 p5.
              untraded 1 (omega arith) (p5.0 ∙ same_goods) (
                p5.1
                ∙ ap {A = Books} {B = Books}
                    (λ b. record (answered (codes "0") b) { failed_count = b.failed_count + 1 })
                    same_books)

      -- The early return where nothing is in stock.
      pub none-Trade :
          view c m3.world ≡ committed m.world
          → Returns
              (do set_result sv (codes "0"); autocommit sv (some c) true)
              m3
              (λ _ m'. Trade db Rows m m')
      unfolding set_result
      none-Trade seen =
          Returns-step (set_result sv (codes "0")) (λ _. autocommit sv (some c) true) refl
            (Returns-map
              (closed (committed m.world) (answered (codes "0") (books m3))
                (record m3 { self = record (m3.self) { response = codes "0" } }) same_goods seen
                refl)
              λ _ m5 p5. untraded 0 (omega arith) p5.0 (ground arith))
