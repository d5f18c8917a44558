-- ===== src/Worker/Shop/Spec.antt =====
-- What the shop promises, without connections, transactions and retries: each request buys one
-- item, if there is one, or nothing; but where a commit fails, a success is counted for nothing.
use docker_compose_seckill_s.Base.{ℕ, zero, suc, ◌+◌, ◌-◌, ◌≤◌, ◌<◌, ◌≡◌, sym, subst, ap, arith}
use docker_compose_seckill_s.Worker.Stock.{Goods}

-- The goods in the database, and the items that the process counts as sold.
pub record Shop : Type 0 where
  pub goods : Goods
  pub sold : ℕ

-- An item leaves the stock, and a number of orders is added.
abbrev pub one_sold : ℕ → Shop → Shop
one_sold rows s = record {
  goods = record { stock = s.goods.stock - 1; orders = s.goods.orders + rows };
  sold = s.sold + 1;
}

abbrev pub one_counted : Shop → Shop
one_counted s = record s { sold = s.sold + 1 }

-- `Fails` is that a commit can fail. How many rows an order adds is up to its texts.
pub data Serves (Fails : Type 0) (s s' : Shop) : Type 0 where
  sells : (rows : ℕ) → 0 < s.goods.stock → s' ≡ one_sold rows s → Serves Fails s s'
  counts : Fails → 0 < s.goods.stock → s' ≡ one_counted s → Serves Fails s s'
  refuses : s' ≡ s → Serves Fails s s'

module _ {Fails : Type 0} where
  -- An equal shop before or after does not matter.
  pub Serves-after : {a b c d : Shop} → b ≡ a → d ≡ c → Serves Fails b c → Serves Fails a d
  Serves-after {d} p q v = subst (λ x. Serves Fails x d) p (subst (Serves Fails _) (sym q) v)

-- What a number of events make of the shop.
pub data Trading (Fails : Type 0) (s : Shop) : ℕ → Shop → Type 0 where
  opens : Trading Fails s 0 s
  serves :
      {n : ℕ} {s1 s2 : Shop}
      → Trading Fails s n s1
      → Serves Fails s1 s2
      → Trading Fails s (suc n) s2

-- Items sold are items that left the stock, but for a number of `unsold` ones, which is 0 unless
-- a commit can fail; the stock never grows, no order is lost, and no event sells two.
pub record IsFair (Fails : Type 0) (n : ℕ) (s s' : Shop) : Type 0 where
  pub unsold : ℕ
  pub why : 0 < unsold → Fails
  pub conserves : s'.goods.stock + s'.sold ≡ s.goods.stock + s.sold + unsold
  pub orders : s.goods.orders ≤ s'.goods.orders
  pub falls : s'.goods.stock ≤ s.goods.stock
  pub at_most : s'.sold ≤ s.sold + n

module _ {Fails : Type 0} where
  Serves-IsFair : (s s' : Shop) → Serves Fails s s' → IsFair Fails 1 s s'
  Serves-IsFair s s' (sells rows left e) =
      let stock = ap (λ (x : Shop). x.goods.stock) e in
      let orders = ap (λ (x : Shop). x.goods.orders) e in
      let sold = ap (λ (x : Shop). x.sold) e in
      record {
        unsold = 0;
        why = λ h. absurd (omega (arith, h));
        conserves = omega (arith, stock, sold, left);
        orders = omega (arith, orders);
        falls = omega (arith, stock);
        at_most = omega (arith, sold);
      }
  Serves-IsFair s s' (counts fails left e) =
      let stock = ap (λ (x : Shop). x.goods.stock) e in
      let orders = ap (λ (x : Shop). x.goods.orders) e in
      let sold = ap (λ (x : Shop). x.sold) e in
      record {
        unsold = 1;
        why = λ h. fails;
        conserves = omega (arith, stock, sold);
        orders = omega (arith, orders);
        falls = omega (arith, stock);
        at_most = omega (arith, sold);
      }
  Serves-IsFair s s' (refuses e) =
      let stock = ap (λ (x : Shop). x.goods.stock) e in
      let orders = ap (λ (x : Shop). x.goods.orders) e in
      let sold = ap (λ (x : Shop). x.sold) e in
      record {
        unsold = 0;
        why = λ h. absurd (omega (arith, h));
        conserves = omega (arith, stock, sold);
        orders = omega (arith, orders);
        falls = omega (arith, stock);
        at_most = omega (arith, sold);
      }

  -- A number that is not 0 has a part that is not.
  pub either_part : {a b : ℕ} → (0 < a → Fails) → (0 < b → Fails) → 0 < a + b → Fails
  either_part {a = zero} f g h = g (omega (arith, h))
  either_part {a = suc a} f g h = f (omega arith)

  pub Trading-IsFair : (s : Shop) (n : ℕ) (s' : Shop) → Trading Fails s n s' → IsFair Fails n s s'
  Trading-IsFair s _ _ opens = record {
    unsold = 0;
    why = λ h. absurd (omega (arith, h));
    conserves = omega arith;
    orders = omega arith;
    falls = omega arith;
    at_most = omega arith;
  }
  Trading-IsFair s _ s2 (serves {n} {s1} t last) =
      let before = Trading-IsFair s n s1 t in
      let after = Serves-IsFair s1 s2 last in
      record {
        unsold = before.unsold + after.unsold;
        why = either_part before.why after.why;
        conserves = omega (arith, before.conserves, after.conserves);
        orders = omega (arith, before.orders, after.orders);
        falls = omega (arith, before.falls, after.falls);
        at_most = omega (arith, before.at_most, after.at_most);
      }
