-- ===== src/Client/Threads.antt =====
-- GRPC/src/seckill_client.cc: `main`, which starts a thread for each request. The threads come
-- out of their calls one after the other: each counts its reply and looks at the count before
-- the next one does.
use docker_compose_seckill_s.Base.{
  ℕ, ◌+◌, List, [], ◌∷◌, Option, none, some, Bytes, atoi, pos, text_eq, codes, Bool, replicate,
  if◌then◌else◌,
}
use docker_compose_seckill_s.Client.Data.{num_threads, prepare_test_data}
use docker_compose_seckill_s.Client.Session.{
  Counts, Rpc, rpc_ok, rpc_failed, user_request, on_seckill,
}

-- The users that the threads stand for: by the last argument of the command line, if there is
-- one, and by the random numbers. A test type that is no number, or none of the five, leaves the
-- zeros.
unfoldable pub test_names : Option Bytes → List ℕ → List ℕ
test_names none rands = replicate num_threads 0
test_names (some arg) rands = elim (atoi arg) [
  | some (pos test_type) ↦ prepare_test_data test_type rands
  | _ ↦ replicate num_threads 0
]

module _ (call : Bytes × Bytes → Rpc) (junk : Bytes) where
  -- The counts in the end, and how often `checkSeckillInfo` was called.
  unfoldable pub serve_threads : List ℕ → Counts → Counts × ℕ
  serve_threads [] c = (c, 0)
  serve_threads (i ∷ names) c =
      let (c', last) = on_seckill call junk i c in
      let (c'', checks) = serve_threads names c' in (c'', if last then checks + 1 else checks)

  unfoldable pub main : Option Bytes → List ℕ → Counts × ℕ
  main arg rands =
      serve_threads (test_names arg rands) (record { response_count = 0; success_count = 0 })

  -- What the worker promises: a call that comes back has the text "1" or "0".
  pub data IsReply : Rpc → Type 0 where
    bought : IsReply (rpc_ok (codes "1"))
    refused : IsReply (rpc_ok (codes "0"))
    failed : IsReply rpc_failed

  -- The reference: how many of the calls were answered with the text "1".
  abbrev pub win : Rpc → ℕ
  win (rpc_ok result) = if text_eq result (codes "1") then 1 else 0
  win rpc_failed = 0

  pub wins : List ℕ → ℕ
  wins [] = 0
  wins (i ∷ names) = win (call (user_request junk i)) + wins names

  abbrev one_if : Bool → ℕ
  one_if b = if b then 1 else 0

  -- How often a list of threads meets the count of 500.
  abbrev meets : List ℕ → ℕ
  meets [] = 0
  meets (i ∷ names) = 1
