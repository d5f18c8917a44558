-- ===== src/Tests/Shop.antt =====
-- The theorems about the goods over the whole loop, at the example servers.
use docker_compose_seckill_s.Base.{
  ◌≡◌, refl, List, [], ◌∷◌, none, some, true, codes, Bytes, arith, text_eq, c_str,
}
use docker_compose_seckill_s.Services.{Event}
use docker_compose_seckill_s.Machine.Quiet.{Ensures}
use docker_compose_seckill_s.Machine.Returns.{Returns}
use docker_compose_seckill_s.Worker.Stock.{CommitFails}
use docker_compose_seckill_s.Worker.Answered.{IsAnswered, proceed-IsAnswered}
use docker_compose_seckill_s.Worker.Proceed.{answer, proceed}
use docker_compose_seckill_s.Worker.Check.{check_user_info, select_key, select_order}
use docker_compose_seckill_s.Worker.Users.{SameUsers, check_user_info-eq}
use docker_compose_seckill_s.Worker.Shop.Spec.{Trading}
use docker_compose_seckill_s.Worker.Shop.Laws.{Apart}
use docker_compose_seckill_s.Worker.Shop.Frames.{shop, with_goods}
use docker_compose_seckill_s.Server.Serve.{run}
use docker_compose_seckill_s.Server.Trading.{run-Trading}
use docker_compose_seckill_s.Worker.Admission.{Admission, answer-Admission}
use docker_compose_seckill_s.Tests.Fake.{Servers, servers, execute, next_event, redis_reply}
use docker_compose_seckill_s.Tests.Goods.{servers-GoodsDb}
use docker_compose_seckill_s.Tests.Examples as Examples

next_event-keeps :
    (events : List Event) (w : Servers) → (next_event events w).1.committed ≡ w.committed
unfolding next_event
next_event-keeps [] w = refl
next_event-keeps (e ∷ events) w = refl

execute-order : (name : Bytes) (w : Servers) → (execute (select_order name) w).1.mine ≡ w.mine
unfolding execute select_order
execute-order name w = refl

pub servers-Apart : Apart servers-GoodsDb
unfolding servers-GoodsDb
servers-Apart = record {
  command_keeps = λ conn format args w. (refl, λ c. refl);
  redis_keeps = λ host port w. refl;
  connections = record {
    init = λ w. refl;
    connect = λ conn t w. refl;
    ping = λ conn w. refl;
    closed = λ conn w. refl;
  };
  request_keeps = λ tag w. refl;
  finish_keeps = λ tag t w. refl;
  next_keeps = λ w. next_event-keeps w.events w;
  reads_order = λ c conn name w. execute-order name w;
  use_apart = λ c conn w. refl;
}

run-Trading_example : Ensures (run servers 9 3) Examples.opening (λ _ m'.
    Trading
      (CommitFails servers)
      (with_goods 0 (record { stock = 2; orders = 0 }))
      3
      (shop servers-GoodsDb m'))
unfolding servers-GoodsDb
run-Trading_example =
    run-Trading servers-GoodsDb servers-Apart 9 (omega arith) 3 Examples.opening (omega arith)

proceed-IsAnswered_example : Ensures (proceed servers 9 0) Examples.shop (λ _ m'.
    IsAnswered
      (CommitFails servers)
      (m'.workers 0)
      (shop servers-GoodsDb Examples.shop)
      (shop servers-GoodsDb m'))
unfolding servers-GoodsDb
proceed-IsAnswered_example =
    proceed-IsAnswered servers-GoodsDb servers-Apart 9 (omega arith) 0 Examples.waiting
      Examples.shop refl refl refl (omega arith)

-- Everybody has the key "k".
servers-SameUsers : SameUsers servers-GoodsDb
unfolding servers-GoodsDb redis_reply text_eq execute select_key
servers-SameUsers = record {
  users = λ w name. some (codes "k");
  is_up = λ conn w. true;
  in_redis = λ conn name w up. (refl, refl);
  in_mysql = λ c name w plain ok. (0, refl, refl, refl);
}

check_user_info-eq_example :
    Returns
      (check_user_info servers 9 (codes "1") (codes "k") (some 1) (some 7))
      Examples.shop
      (λ b _. b ≡ true)
    × Returns
        (check_user_info servers 9 (codes "1") (codes "k") none (some 7))
        Examples.shop
        (λ b _. b ≡ true)
unfolding select_key c_str text_eq execute servers-SameUsers
check_user_info-eq_example =
    check_user_info-eq servers-GoodsDb 9 servers-SameUsers (codes "1") (codes "k") 1 7 Examples.shop
      refl refl (omega arith) (omega arith) refl

answer-Admission_example :
    Ensures
      (answer servers 9 (codes "1") (codes "k") (some 1) (some 7))
      Examples.shop
      (λ _ m'. Admission servers (codes "1") (codes "k") 1 Examples.shop m')
answer-Admission_example =
    answer-Admission servers (codes "1") (codes "k") 1 9 (some 7) Examples.shop
