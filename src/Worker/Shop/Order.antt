-- ===== src/Worker/Shop/Order.antt =====
-- GRPC/src/Worker.cc: `seckillGoods_mysql` serves one request of the shop, without any bound on
-- the counters or on the texts: where one is exceeded, it does not return.
use docker_compose_seckill_s.Base.{
  ℕ, ◌+◌, ◌-◌, ◌≤◌, ◌≡◌, refl, sym, subst, ap, ◌∙◌, Bool, true, false, ◌<◌, pos, Bytes, Option,
  none, some, pos_part, int_max, length, ◌⊎◌, inl, inr, ltb, ltb→lt, Bool-cases, arith,
}
use docker_compose_seckill_s.Services.{Services}
use docker_compose_seckill_s.Machine.{Machine, M, done, fault, buffer_overflow, ◌>>◌}
use docker_compose_seckill_s.Machine.Calls.{
  query, sprintf_200, autocommit, commit, rollback, count_success,
}
use docker_compose_seckill_s.Machine.Quiet.{
  Books, Ensures, Ensures-bind, Ensures-map, Ensures-test, Ensures-step, Returns-Ensures,
  keeps_then,
}
use docker_compose_seckill_s.Worker.Order.{
  update_stock, insert_order, write_order, end_order, seckill_goods_mysql,
}
use docker_compose_seckill_s.Worker.Stock.{Goods, GoodsDb, CommitFails}
use docker_compose_seckill_s.Worker.Trade.Rows.{query_lem}
use docker_compose_seckill_s.Worker.Trade.Read.{read_stock-Returns}
use docker_compose_seckill_s.Worker.Trade.Statements.{
  sprintf_200_lem, rollback_lem, autocommit_lem, update_stock-fits, write_order-Returns,
}
use docker_compose_seckill_s.Worker.Trade.End.{OneOf-OneOf, commits_one}
use docker_compose_seckill_s.Worker.Trade.Write.{in_stock-eq}
use docker_compose_seckill_s.Worker.Local.{
  set_result-Keeps, write_lock-Keeps, unlock-Keeps, count_failure-Keeps,
}
use docker_compose_seckill_s.Worker.Shop.Spec.{Serves, sells, counts, refuses}
use docker_compose_seckill_s.Worker.Shop.Laws.{Apart}
use docker_compose_seckill_s.Worker.Shop.Frames.{
  shop, with_goods, view_frame, view_local, Both, both,
}

module _ {sv : Services} (db : GoodsDb sv) (apart : Apart db) (c fuel : ℕ) where
  open db use {committed, view, holds}

  abbrev Ends : M sv (Unit {0}) → Machine sv → ℕ → Goods → Goods → Type 0
  Ends act m n g v = Ensures act m (λ _ m'. (view_frame db apart c).see m' ≡ both n g v)

  count_success-Ends :
      (m : Machine sv)
      → Ends (count_success sv) m (m.success_num + 1) (committed m.world) (view c m.world)
  unfolding count_success
  count_success-Ends m = elim (Bool-cases (ltb m.success_num int_max)) [
    | inl e ↦ record { apply = rw e refl }
    | inr e ↦ record { apply = rw e refl }
  ]

  end_order-failed :
      (m : Machine sv)
      → Ends
          (end_order sv fuel (some c) false)
          m
          m.success_num
          (committed m.world)
          (committed m.world)
  unfolding end_order
  end_order-failed m = Ensures-step (rollback sv (some c)) _ (rollback_lem db c m) (
      keeps_then (write_lock-Keeps sv (view_local db apart c)) λ _ m2 e2.
        keeps_then (count_failure-Keeps sv (view_local db apart c)) λ _ m3 e3.
          keeps_then (unlock-Keeps sv (view_local db apart c)) λ _ m4 e4.
            Ensures-map ((set_result-Keeps sv (view_local db apart c) _).apply m4) λ _ m5 e5.
              e5 ∙ e4 ∙ e3 ∙ e2 ∙ (λ i.
                both m.success_num ((db.rolls_back c m.world).0 i) ((db.rolls_back c m.world).1 i)))

  commit_lem :
      (m : Machine sv)
      → commit sv (some c) m
        ≡ done (sv.mysql_commit c m.world).0 (record m { world = (sv.mysql_commit c m.world).1 })
  unfolding commit
  commit_lem m = refl

  end_order-sold :
      (m : Machine sv)
      → Ends
          (end_order sv fuel (some c) true)
          m
          (m.success_num + 1)
          (committed (sv.mysql_commit c m.world).1)
          (view c (sv.mysql_commit c m.world).1)
  unfolding end_order
  end_order-sold m = Ensures-step (commit sv (some c)) _ (commit_lem m) (
      keeps_then (set_result-Keeps sv (view_local db apart c) _) λ _ m2 e2.
        Ensures-map (count_success-Ends m2)
          λ _ m3 e3. e3 ∙ ap {A = Both} (λ b. both (b.0.sold + 1) b.0.goods b.1) e2)

  -- `autocommit(ON)` makes permanent what the connection sees, or fails.
  pub closes :
      {m : Machine sv} {n : ℕ} {g v : Goods}
      → (view_frame db apart c).see m ≡ both n g v
      → Ensures
          (autocommit sv (some c) true)
          m
          (λ _ m'. (m'.success_num ≡ n) × ((committed m'.world ≡ v) ⊎ (committed m'.world ≡ g)))
  unfolding autocommit
  closes {m} e = record {
    apply = (
      ap {A = Both} (λ b. b.0.sold) e,
      elim (db.ends c m.world) [
        | inl p ↦ inl (p ∙ ap {A = Both} (λ b. b.1) e)
        | inr p ↦ inr (p ∙ ap {A = Both} (λ b. b.0.goods) e)
      ],
    );
  }

  -- Where nothing was written it changes nothing.
  pub closes_still :
      {m : Machine sv} {n : ℕ} {g : Goods}
      → (view_frame db apart c).see m ≡ both n g g
      → Ensures (autocommit sv (some c) true) m (λ _ m'. shop db m' ≡ with_goods n g)
  closes_still e = Ensures-map (closes e) λ _ m' p. λ i. with_goods (p.0 i) (either_way p.1 i)
    where
      either_way : {g h : Goods} → (h ≡ g) ⊎ (h ≡ g) → h ≡ g
      either_way (inl p) = p
      either_way (inr p) = p

  -- What the statements of an order leave behind, if both went through.
  abbrev Written : ℕ → Machine sv → Bool → Machine sv → Type 0
  Written n m ok m' =
      (m'.success_num ≡ m.success_num)
      × (committed m'.world ≡ committed m.world)
      × (ok ≡ true
          → (rows : ℕ) × (view c m'.world
              ≡ record { stock = n; orders = (view c m.world).orders + rows }))

  module _ (name key : Bytes) where
    overflows :
        (t : Bytes) (m : Machine sv)
        → ltb (length t) 200 ≡ false
        → sprintf_200 sv t m ≡ fault buffer_overflow
    unfolding sprintf_200
    overflows t m long = ground arith

    never :
        (t : Bytes) (m : Machine sv)
        → ltb (length t) 200 ≡ false
        → Ensures (sprintf_200 sv t) m (λ _ _. ⊥)
    never t m long = record { apply = rw (overflows t m long) refl }

    write_order-Written :
        (n : ℕ) (m : Machine sv)
        → n ≤ int_max
        → holds c m.world ≡ true
        → Ensures (write_order sv fuel name key (some c) n) m (Written n m)
    unfolding write_order
    write_order-Written n m small holding =
        elim (Bool-cases (ltb (length (insert_order name key)) 200)) [
          | inl fits ↦
              Ensures-map
                (Returns-Ensures
                  (write_order-Returns db c fuel name key n m small (ltb→lt _ _ fits) holding))
                λ ok m' p. (
                  ap (λ (b : Books). b.success_num) p.0,
                  p.1,
                  λ e. let (rows, one, v) = p.2 e in (rows, v),
                )
          | inr long ↦
              Ensures-step (sprintf_200 sv (update_stock n)) _
                (sprintf_200_lem db c (update_stock n) m (update_stock-fits db c n small))
                (Ensures-step (query sv (some c) (update_stock n)) _
                  (query_lem db c (update_stock n) m)
                  (Ensures-bind (never (insert_order name key) _ long) λ _ _ no. absurd no))
        ]

    -- From an order that was written, or not, to its end.
    ends_order :
        (m m3 : Machine sv) (ok : Bool)
        → 0 < (committed m.world).stock
        → m3.success_num ≡ m.success_num
        → committed m3.world ≡ committed m.world
        → (ok ≡ true
            → (rows : ℕ) × (view c m3.world ≡ record {
              stock = (committed m.world).stock - 1;
              orders = (committed m.world).orders + rows;
            }))
        → Ensures
            (do end_order sv fuel (some c) ok; autocommit sv (some c) true)
            m3
            (λ _ m'. Serves (CommitFails sv) (shop db m) (shop db m'))
    ends_order m m3 true left same_sold same_goods seen =
        let (rows, v) = seen refl in
        let (new, old) = commits_one db c m3.world in
        Ensures-bind (end_order-sold m3) λ _ m4 e4. Ensures-map (closes e4) λ _ m5 p.
          elim (OneOf-OneOf new old p.1) [
            | inl e ↦
                sells rows left (λ i. with_goods ((p.0 ∙ ap (λ n. n + 1) same_sold) i) ((e ∙ v) i))
            | inr e ↦
                counts e.0 left
                  (λ i. with_goods ((p.0 ∙ ap (λ n. n + 1) same_sold) i) ((e.1 ∙ same_goods) i))
          ]
    ends_order m m3 false left same_sold same_goods seen =
        Ensures-bind (end_order-failed m3) λ _ m4 e4.
          Ensures-map (closes_still e4)
            λ _ m5 e5. refuses (e5 ∙ λ i. with_goods (same_sold i) (same_goods i))

    order_of :
        (m : Machine sv)
        → 2 ≤ fuel
        → (committed m.world).stock ≤ int_max
        → Ensures
            (seckill_goods_mysql sv fuel name key (some c))
            m
            (λ _ m'. Serves (CommitFails sv) (shop db m) (shop db m'))
    unfolding seckill_goods_mysql
    order_of m two small =
        Ensures-step (autocommit sv (some c) false) _ (autocommit_lem db c false m) (
          Ensures-bind
            (Returns-Ensures (
              read_stock-Returns db c fuel m1 two
                (subst (λ g. g.stock ≤ int_max) (sym begun.1) small)))
            λ n m2 p2.
              Ensures-test _
                (λ positive.
                  let (k, left) =
                    in_stock-eq db c fuel name key n (committed m.world).stock
                      (subst (λ g. (n ≡ pos 0) ⊎ (n ≡ pos g.stock)) begun.1 p2.0) positive in
                  Ensures-bind
                    (write_order-Written (pos_part n - 1) m2 (omega (arith, k, small))
                      (p2.1.same_holds ∙ begun.2))
                    λ ok m3 p3.
                      ends_order m m3 ok left
                        (p3.0 ∙ ap (λ (b : Books). b.success_num) p2.1.same_books)
                        (p3.1 ∙ p2.1.same_committed ∙ begun.0)
                        (λ e.
                          let (rows, v) = p3.2 e in
                          (
                            rows,
                            v ∙ λ i. record {
                              stock = k i - 1;
                              orders = ((p2.1.same_view ∙ begun.1) i).orders + rows;
                            },
                          )))
                (λ sold_out. keeps_then (set_result-Keeps sv (view_local db apart c) _) λ _ m3 e3.
                  Ensures-map
                    (closes_still (
                      e3 ∙ λ i.
                      both (ap (λ (b : Books). b.success_num) p2.1.same_books i)
                        ((p2.1.same_committed ∙ begun.0) i) ((p2.1.same_view ∙ begun.1) i)))
                    λ _ m4 e4. refuses e4))
      where
        m1 : Machine sv
        m1 = record m { world = sv.mysql_autocommit c false m.world }

        begun :
            (committed m1.world ≡ committed m.world)
            × (view c m1.world ≡ committed m.world)
            × (holds c m1.world ≡ true)
        begun = db.begins c m.world

module _ {sv : Services} (db : GoodsDb sv) (apart : Apart db) (fuel : ℕ) where
  pub seckill_goods_mysql-Serves :
      (name key : Bytes) (conn : Option ℕ) (m : Machine sv)
      → 2 ≤ fuel
      → (db.committed m.world).stock ≤ int_max
      → Ensures
          (seckill_goods_mysql sv fuel name key conn)
          m
          (λ _ m'. Serves (CommitFails sv) (shop db m) (shop db m'))
  unfolding seckill_goods_mysql autocommit
  seckill_goods_mysql-Serves name key none m two small = record { apply = refl }
  seckill_goods_mysql-Serves name key (some c) m two small =
      order_of db apart c fuel name key m two small
