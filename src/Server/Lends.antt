-- ===== src/Server/Lends.antt =====
-- GRPC/src/seckill_server.cc: what `prepareForSeckill` does to the pool of MySQL connections.
use docker_compose_seckill_s.Base.{
  ℕ, zero, suc, ◌≤◌, ◌≡◌, refl, Bool, true, false, Bytes, Option, none, some, ℤ, pos, arith,
}
use docker_compose_seckill_s.Services.{Services, Row}
use docker_compose_seckill_s.Machine.{Machine, when}
use docker_compose_seckill_s.Machine.Quiet.{
  Keeps, Keeps-bind, Keeps-pure, Keeps-raise, Keeps-if, Keeps-option, Ensures, Ensures-bind,
  Ensures-map, Ensures-if, query-Keeps, use_result-Keeps, fetch_row-Keeps, free_result-Keeps,
  num_fields-Keeps, deref-Keeps, column-Keeps, command-Keeps, is_ok-Keeps, free_reply-Keeps,
  parse_int-Keeps,
}
use docker_compose_seckill_s.MysqlPool
use docker_compose_seckill_s.MysqlPool.{MysqlPool}
use docker_compose_seckill_s.MysqlPool.Limit.{lend}
use docker_compose_seckill_s.Worker.Lends.{pool_frame, redis_connect-Keeps, redis_close-Keeps}
use docker_compose_seckill_s.Worker.Lends.Process.{
  pool_then, Within, taken-Within, given-Within, mysql_connect-takes, mysql_close-gives,
}
use docker_compose_seckill_s.Server.Prepare.{
  redis_free, query_or_exit, create_users, load_user, load_users, goods_count, publish_count,
  prepare_for_seckill,
}

-- The limit is `limit`, and all connections counted are in the queue, but for one at most.
abbrev pub LosesOne : ℕ → MysqlPool → Type 0
LosesOne limit p = (lent : ℕ) × (lent ≤ 1) × Within limit lent p

module _ (sv : Services) (fuel : ℕ) (junk : Bytes) where
  redis_free-Keeps : (conn : Option ℕ) → Keeps (pool_frame sv) (redis_free sv fuel junk conn)
  unfolding redis_free
  redis_free-Keeps none = record { apply = λ m. record { apply = refl } }
  redis_free-Keeps (some conn) = record { apply = λ m. record { apply = refl } }

  query_or_exit-Keeps :
      (conn : Option ℕ) (sql : Bytes) → Keeps (pool_frame sv) (query_or_exit sv fuel junk conn sql)
  unfolding query_or_exit
  query_or_exit-Keeps conn sql =
      Keeps-bind (query-Keeps sv conn sql λ _. tt)
        λ failed. Keeps-if failed (Keeps-raise _ refl) (Keeps-pure _)

  create_users-Keeps :
      (conn : Option ℕ) (row : Option Row)
      → Keeps (pool_frame sv) (create_users sv fuel junk conn row)
  unfolding create_users
  create_users-Keeps conn (some row) = Keeps-pure _
  create_users-Keeps conn none =
      Keeps-bind (query-Keeps sv conn _ λ _. tt)
        λ _. Keeps-bind (query-Keeps sv conn _ λ _. tt) λ _. Keeps-pure _

  load_user-Keeps :
      (conn res : Option ℕ) (row : Row)
      → Keeps (pool_frame sv) (load_user sv fuel junk conn res row)
  unfolding load_user
  load_user-Keeps conn res row = Keeps-bind (num_fields-Keeps sv res) λ n.
      Keeps-if _
        (Keeps-bind (column-Keeps sv row 0) λ s. Keeps-bind (deref-Keeps sv s) λ name.
          Keeps-bind (column-Keeps sv row 1) λ t. Keeps-bind (deref-Keeps sv t) λ key.
            Keeps-bind (command-Keeps sv conn _ _) λ reply. Keeps-bind (is_ok-Keeps sv reply) λ ok.
              Keeps-bind (free_reply-Keeps sv reply) λ _.
                Keeps-if ok (Keeps-pure _) (Keeps-bind (redis_free-Keeps conn) λ _. Keeps-pure _))
        (Keeps-pure _)

  load_users-Keeps :
      (rounds : ℕ) (conn res : Option ℕ)
      → Keeps (pool_frame sv) (load_users sv fuel junk rounds conn res)
  unfolding load_users
  load_users-Keeps zero conn res = Keeps-raise _ refl
  load_users-Keeps (suc rounds) conn res = Keeps-bind (fetch_row-Keeps sv res) λ row.
      Keeps-option row (Keeps-bind (free_result-Keeps sv res) λ _. Keeps-pure _) λ r.
        Keeps-bind (load_user-Keeps conn res r)
          λ loaded. Keeps-if loaded (load_users-Keeps rounds conn res) (Keeps-pure _)

  goods_count-Keeps :
      (rounds : ℕ) (res : Option ℕ) (n : ℤ)
      → Keeps (pool_frame sv) (goods_count sv fuel junk rounds res n)
  unfolding goods_count
  goods_count-Keeps zero res n = Keeps-raise _ refl
  goods_count-Keeps (suc rounds) res n = Keeps-bind (fetch_row-Keeps sv res) λ row.
      Keeps-option row (Keeps-bind (free_result-Keeps sv res) λ _. Keeps-pure _) λ r.
        Keeps-bind (num_fields-Keeps sv res) λ k.
          Keeps-bind
            (Keeps-if _ (Keeps-bind (column-Keeps sv r 2) (parse_int-Keeps sv)) (Keeps-pure _))
            (goods_count-Keeps rounds res)

  -- Both ends of it give the connection back.
  publish_count-gives :
      (conn redis : Option ℕ) (m : Machine sv)
      → Ensures
          (publish_count sv fuel junk conn redis)
          m
          (λ _ m'. m'.mysql ≡ MysqlPool.close conn m.mysql)
  unfolding publish_count
  publish_count-gives conn redis m = pool_then sv fuel (query_or_exit-Keeps conn _) λ _ m1 e1.
      pool_then sv fuel (use_result-Keeps sv conn) λ res m2 e2.
        pool_then sv fuel (goods_count-Keeps fuel res (pos 0)) λ n m3 e3.
          pool_then sv fuel (query-Keeps sv conn _ λ _. tt) λ _ m4 e4.
            pool_then sv fuel (command-Keeps sv redis _ _) λ reply m5 e5.
              pool_then sv fuel (is_ok-Keeps sv reply) λ ok m6 e6.
                pool_then sv fuel (free_reply-Keeps sv reply) λ _ m7 e7.
                  Ensures-if ok
                    (pool_then sv fuel (command-Keeps sv redis _ _) λ again m8 e8.
                      pool_then sv fuel (free_reply-Keeps sv again) λ _ m9 e9.
                        pool_then sv fuel (command-Keeps sv redis _ _) λ _ m10 e10.
                          Ensures-bind (mysql_close-gives sv fuel conn m10) λ _ m11 e11.
                            Ensures-map ((redis_close-Keeps sv redis).apply m11) λ _ m12 e12. cc)
                    (pool_then sv fuel (redis_close-Keeps sv redis)
                      λ _ m8 e8. Ensures-map (mysql_close-gives sv fuel conn m8) λ _ m9 e9. cc)

  lend_below : (conn : Option ℕ) → lend 0 conn ≤ 1
  lend_below none = omega arith
  lend_below (some c) = omega arith

  -- A refused user is where the connection is lost.
  published :
      (limit : ℕ) (loaded : Bool) (conn redis : Option ℕ) (m : Machine sv)
      → Within limit (lend 0 conn) m.mysql
      → Ensures
          (when loaded (publish_count sv fuel junk conn redis))
          m
          (λ _ m'. LosesOne limit m'.mysql)
  published limit true conn redis m v =
      Ensures-map (publish_count-gives conn redis m)
        λ _ m1 e. (0, omega arith, given-Within limit 0 conn m.mysql v e)
  published limit false conn redis m v = record { apply = (lend 0 conn, lend_below conn, v) }

  pub prepare_for_seckill-LosesOne :
      (limit : ℕ) (m : Machine sv)
      → Within limit 0 m.mysql
      → Ensures (prepare_for_seckill sv fuel junk) m (λ _ m'. LosesOne limit m'.mysql)
  unfolding prepare_for_seckill
  prepare_for_seckill-LosesOne limit m v = Ensures-bind (mysql_connect-takes sv fuel m) λ conn m1 t.
      pool_then sv fuel (redis_connect-Keeps sv) λ redis m2 e2.
        pool_then sv fuel (query-Keeps sv conn _ λ _. tt) λ _ m3 e3.
          pool_then sv fuel (query-Keeps sv conn _ λ _. tt) λ _ m4 e4.
            pool_then sv fuel (query-Keeps sv conn _ λ _. tt) λ _ m5 e5.
              pool_then sv fuel (query_or_exit-Keeps conn _) λ _ m6 e6.
                pool_then sv fuel (use_result-Keeps sv conn) λ res m7 e7.
                  pool_then sv fuel (fetch_row-Keeps sv res) λ row m8 e8.
                    pool_then sv fuel (create_users-Keeps conn row) λ _ m9 e9.
                      pool_then sv fuel (free_result-Keeps sv res) λ _ m10 e10.
                        pool_then sv fuel (query_or_exit-Keeps conn _) λ _ m11 e11.
                          pool_then sv fuel (use_result-Keeps sv conn) λ users m12 e12.
                            pool_then sv fuel (load_users-Keeps fuel redis users) λ loaded m13 e13.
                              published limit loaded conn redis m13
                                (taken-Within limit 0 sv m.world v t.0 cc)
