-- ===== src/Worker/Trade/Balance.antt =====
-- GRPC/src/Worker.cc: the balance over many orders, which GRPC/src/seckill_client.cc checks in
-- `checkSeckillInfo`.
use docker_compose_seckill_s.Base.{
  ℕ, ◌+◌, ◌≤◌, ◌<◌, ◌≡◌, ap, ◌∙◌, false, Bytes, List, [], ◌∷◌, some, int_max, length, arith,
}
use docker_compose_seckill_s.Services.{Services}
use docker_compose_seckill_s.Machine.{Machine, M, pure, ◌>>◌}
use docker_compose_seckill_s.Machine.Quiet.{Books}
use docker_compose_seckill_s.Machine.Returns.{Returns, Returns-bind, Returns-map}
use docker_compose_seckill_s.Worker.Order.{insert_order, seckill_goods_mysql}
use docker_compose_seckill_s.Worker.Stock.{Goods, GoodsDb, CommitFails, IsPlain}
use docker_compose_seckill_s.Worker.Trade.End.{Trade, traded, lost, untraded}
use docker_compose_seckill_s.Worker.Trade.Write.{seckill_goods_mysql-Trade}
use docker_compose_seckill_s.Worker.Shop.Spec.{either_part}

-- An order that reaches MySQL: a name, a key, and the connection that its worker holds.
pub record Purchase : Type 0 where
  pub name : Bytes
  pub key : Bytes
  pub conn : ℕ

abbrev pub AllFit : List Purchase → Type 0
AllFit [] = Unit {0}
AllFit (p ∷ ps) =
    (length (insert_order p.name p.key) < 200) × IsPlain p.name × IsPlain p.key × AllFit ps

module _ (sv : Services) (fuel : ℕ) where
  -- Workers come to the transaction one after the other: `FOR UPDATE` locks the row.
  pub purchases : List Purchase → M sv (Unit {0})
  purchases [] = pure tt
  purchases (p ∷ ps) = seckill_goods_mysql sv fuel p.name p.key (some p.conn) >> purchases ps

module _ {sv : Services} (db : GoodsDb sv) (fuel : ℕ) where
  -- The balance between two states: `unsold` successes were counted without a sale.
  pub record Balanced (m m' : Machine sv) : Type 0 where
    pub unsold : ℕ
    pub why : 0 < unsold → CommitFails sv
    pub sold :
        (db.committed m'.world).stock + m'.success_num
        ≡ (db.committed m.world).stock + m.success_num + unsold
    pub ordered :
        (db.committed m'.world).orders + m.success_num + unsold
        ≡ (db.committed m.world).orders + m'.success_num
    pub falls : (db.committed m'.world).stock ≤ (db.committed m.world).stock

  Trade-Balanced :
      (Rows : ℕ → Type 0) (m m' : Machine sv)
      → ((rows : ℕ) → Rows rows → rows ≡ 1)
      → Trade db Rows m m'
      → Balanced m m'
        × (m'.failed_count ≤ m.failed_count + 1)
        × (m'.success_num ≤ m.success_num + 1)
        × (m'.write_locked ≡ m.write_locked)
  Trade-Balanced Rows m m' plain (traded rows one some_left goods e) =
      let stock = ap (λ (g : Goods). g.stock) goods in
      let orders = ap (λ (g : Goods). g.orders) goods in
      let success = ap (λ (b : Books). b.success_num) e in
      (
        record {
          unsold = 0;
          why = λ h. absurd (omega (arith, h));
          sold = omega (arith, stock, success, some_left);
          ordered = omega (arith, orders, success, plain rows one);
          falls = omega (arith, stock);
        },
        omega (arith, ap (λ (b : Books). b.failed_count) e),
        omega (arith, success),
        ap (λ (b : Books). b.write_locked) e,
      )
  Trade-Balanced Rows m m' plain (lost fails some_left goods e) =
      let stock = ap (λ (g : Goods). g.stock) goods in
      let orders = ap (λ (g : Goods). g.orders) goods in
      let success = ap (λ (b : Books). b.success_num) e in
      (
        record {
          unsold = 1;
          why = λ h. fails;
          sold = omega (arith, stock, success);
          ordered = omega (arith, orders, success);
          falls = omega (arith, stock);
        },
        omega (arith, ap (λ (b : Books). b.failed_count) e),
        omega (arith, success),
        ap (λ (b : Books). b.write_locked) e,
      )
  Trade-Balanced Rows m m' plain (untraded k one goods e) =
      let stock = ap (λ (g : Goods). g.stock) goods in
      let orders = ap (λ (g : Goods). g.orders) goods in
      let success = ap (λ (b : Books). b.success_num) e in
      (
        record {
          unsold = 0;
          why = λ h. absurd (omega (arith, h));
          sold = omega (arith, stock, success);
          ordered = omega (arith, orders, success);
          falls = omega (arith, stock);
        },
        omega (arith, ap (λ (b : Books). b.failed_count) e, one),
        omega (arith, success),
        ap (λ (b : Books). b.write_locked) e,
      )

  -- On a database that keeps the laws of GoodsDb, with at least two rounds for the rows of a
  -- result, a stock that fits an `int`, texts of digits and small letters that fit the buffer,
  -- counters that stay below their limit and the lock free: however many orders reach MySQL one
  -- after the other, all of them come to an end. Then the successes counted are the items that left
  -- the stock, and the orders that were added, but for a number of `unsold` ones, which is 0 unless
  -- a commit can fail; and the stock has not grown.
  pub purchases-Balanced :
      (ps : List Purchase) (m : Machine sv)
      → 2 ≤ fuel
      → AllFit ps
      → (db.committed m.world).stock ≤ int_max
      → m.success_num + length ps < int_max
      → m.failed_count + length ps < int_max
      → m.write_locked ≡ false
      → Returns (purchases sv fuel ps) m (λ _ m'. Balanced m m')
  unfolding purchases
  purchases-Balanced [] m two fit small room room' free = record {
    apply = record {
      unsold = 0;
      why = λ h. absurd (omega (arith, h));
      sold = omega arith;
      ordered = omega arith;
      falls = omega arith;
    };
  }
  purchases-Balanced (p ∷ ps) m two fit small room room' free =
      Returns-bind
        (seckill_goods_mysql-Trade db p.conn fuel p.name p.key m two fit.0 (omega arith)
          (omega arith) (omega arith) free)
        λ _ m1 t.
          let (first, few, more, lock) = Trade-Balanced _ m m1 (λ rows one. one fit.1 fit.2) t in
          Returns-map
            (purchases-Balanced ps m1 two fit.3 (omega (arith, small, first.falls))
              (omega (arith, more)) (omega (arith, few)) (lock ∙ free))
            λ _ m2 rest. record {
              unsold = first.unsold + rest.unsold;
              why = either_part first.why rest.why;
              sold = omega (arith, rest.sold, first.sold);
              ordered = omega (arith, rest.ordered, first.ordered);
              falls = omega (arith, rest.falls, first.falls);
            }
