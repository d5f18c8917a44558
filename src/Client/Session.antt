-- ===== src/Client/Session.antt =====
-- GRPC/src/seckill_client.cc: `onSeckill`, one thread of the client. The call over gRPC is an
-- argument.
use docker_compose_seckill_s.Base.{
  ℕ, ◌+◌, Bool, false, Option, none, some, Bytes, codes, to_string, atoi, ℤ, pos, negsuc,
  if◌then◌else◌, ◌==◌,
}
use docker_compose_seckill_s.Server.Prepare.{user_key}

-- `response_count` and `success_count`, which the threads share under `mtx`.
pub record Counts : Type 0 where
  pub response_count : ℕ
  pub success_count : ℕ

-- What a call returns: the status, and the result where it is OK.
pub data Rpc : Type 0 where
  rpc_ok : Bytes → Rpc
  rpc_failed : Rpc

-- `SeckillClient::seckill`.
unfoldable pub seckill : Rpc → Bytes
seckill (rpc_ok result) = result
seckill rpc_failed = codes "RPC failed"

unfoldable pub is_one : Option ℤ → Bool
is_one none = false
is_one (some (pos n)) = n == 1
is_one (some (negsuc n)) = false

-- The request that the thread for user `i` sends: name and key. `junk` is what the stack held.
abbrev pub user_request : Bytes → ℕ → Bytes × Bytes
user_request junk i = (to_string i, user_key junk i)

-- The part between `mtx.lock()` and `mtx.unlock()`.
unfoldable pub count_reply : Bytes → Counts → Counts
count_reply reply c = record c {
  success_count = if is_one (atoi reply) then c.success_count + 1 else c.success_count;
  response_count = c.response_count + 1;
}

-- One thread, once its call has returned; the check runs when this was the last answer.
unfoldable pub on_seckill : (Bytes × Bytes → Rpc) → Bytes → ℕ → Counts → Counts × Bool
on_seckill call junk i c =
    let c' = count_reply (seckill (call (user_request junk i))) c in (c', c'.response_count == 500)
