-- ===== src/Worker/Shop/Frames.antt =====
-- The shop as a frame: what the calls of the process leave alone.
use docker_compose_seckill_s.Base.{ℕ, ◌≡◌, refl, ap}
use docker_compose_seckill_s.Services.{Services}
use docker_compose_seckill_s.Machine.{Machine, M, ◌>>=◌}
use docker_compose_seckill_s.Machine.Quiet.{Frame, PoolFrame, Keeps, Ensures, keeps_then}
use docker_compose_seckill_s.MysqlPool.Apart as MysqlApart
use docker_compose_seckill_s.RedisPool.Apart as RedisApart
use docker_compose_seckill_s.Worker.Stock.{Goods, GoodsDb, IsSelect}
use docker_compose_seckill_s.Worker.Shop.Laws.{Apart}
use docker_compose_seckill_s.Worker.Local.{IsLocal}
use docker_compose_seckill_s.Worker.Shop.Spec.{Shop}

abbrev pub with_goods : ℕ → Goods → Shop
with_goods sold g = record { goods = g; sold = sold }

abbrev pub Both : Type 0
Both = Shop × Goods

abbrev pub both : ℕ → Goods → Goods → Both
both sold g v = (with_goods sold g, v)

pub both-eq : {g h v w : Goods} (n : ℕ) → g ≡ h → v ≡ w → both n g v ≡ both n h w
both-eq n p q = λ i. both n (p i) (q i)

module _ {sv : Services} (db : GoodsDb sv) where
  abbrev pub shop : Machine sv → Shop
  shop m = with_goods m.success_num (db.committed m.world)

  module _ (apart : Apart db) where
    -- No query that reads commits anything.
    abbrev pub shop_frame : Frame sv
    shop_frame = record {
      Seen = Shop;
      see = shop;
      Plain = λ conn t. IsSelect t;
      after_command = λ conn format args n m.
          ap (with_goods m.success_num) (apart.command_keeps conn format args m.world).0;
      after_free_reply = λ n m. refl;
      after_query =
          λ conn t m select. ap (with_goods m.success_num) (db.reads conn t m.world select);
      after_use_result = λ conn m. ap (with_goods m.success_num) (db.use_keeps conn m.world).0;
      after_fetch_row = λ res m. ap (with_goods m.success_num) (db.fetch_keeps 0 res m.world).0;
      after_free_result = λ res m. ap (with_goods m.success_num) (db.free_keeps 0 res m.world).0;
    }

    pub shop_pools : PoolFrame shop_frame
    shop_pools = record {
      after_redis_connect = λ m.
          ap (with_goods m.success_num)
            (RedisApart.get_one_connect-keeps sv db.committed apart.redis_keeps m.redis m.world);
      after_mysql_connect = λ m.
          ap (with_goods m.success_num)
            (MysqlApart.get_one_connect-keeps sv db.committed apart.connections m.mysql m.world);
      after_redis_close = λ conn m. refl;
      after_mysql_close = λ conn m. refl;
      after_finish = λ this t m. ap (with_goods m.success_num) (apart.finish_keeps this t m.world);
      after_next = λ m. ap (with_goods m.success_num) (apart.next_keeps m.world);
    }

    pub shop_local : IsLocal shop_frame
    shop_local = record { after = λ failed locked workers self m. refl }

    -- Inside a transaction, what the connection sees counts too.
    abbrev pub view_frame : ℕ → Frame sv
    view_frame c = record {
      Seen = Both;
      see = λ m. both m.success_num (db.committed m.world) (db.view c m.world);
      Plain = λ conn t.
          IsSelect t × ((w : sv.World) → db.view c (sv.mysql_query conn t w).1 ≡ db.view c w);
      after_command = λ conn format args n m.
          let keeps = apart.command_keeps conn format args m.world in
          both-eq m.success_num keeps.0 (keeps.1 c);
      after_free_reply = λ n m. refl;
      after_query = λ conn t m plain.
          both-eq m.success_num (db.reads conn t m.world plain.0) (plain.1 m.world);
      after_use_result = λ conn m.
          both-eq m.success_num (db.use_keeps conn m.world).0 (apart.use_apart c conn m.world);
      after_fetch_row = λ res m.
          let keeps = db.fetch_keeps c res m.world in both-eq m.success_num keeps.0 keeps.1;
      after_free_result =
          λ res m. let keeps = db.free_keeps c res m.world in both-eq m.success_num keeps.0 keeps.1;
    }

    pub view_local : (c : ℕ) → IsLocal (view_frame c)
    view_local c = record { after = λ failed locked workers self m. refl }

    pub shop_then :
        {A B : Type 0} {act : M sv A} {f : A → M sv B} {m : Machine sv}
        {Q : B → Machine sv → Type 0}
        → Keeps shop_frame act
        → ((a : A) (m' : Machine sv) → shop m' ≡ shop m → Ensures (f a) m' Q)
        → Ensures (act >>= f) m Q
    shop_then q k = keeps_then q k
