-- ===== src/Client/Data.antt =====
-- GRPC/src/seckill_client.cc: `prepareTestData`. The random numbers are an argument.
use docker_compose_seckill_s.Base.{ℕ, ◌+◌, ◌%◌, List, if◌then◌else◌, ◌==◌, map}

-- `NUM_THREADS`.
abbrev pub num_threads : ℕ
num_threads = 500

-- The macro `Random`.
abbrev pub random : ℕ → ℕ → ℕ
random x r = r % x

-- The value that the loop of a test type writes for one result of `rand`.
unfoldable pub test_value : ℕ → ℕ → ℕ
test_value test_type r =
    if test_type == 1
    then random 400 r
    else if test_type == 2
    then random 400 r + 400
    else if test_type == 3
    then random 5 r
    else if test_type == 4
    then random 5 r + 400
    else if test_type == 5
    then random 600 r
    else 0

-- The array, from one result of `rand` for each entry; another test type leaves the zeros that
-- `main` put there.
unfoldable pub prepare_test_data : ℕ → List ℕ → List ℕ
prepare_test_data test_type rands = map (test_value test_type) rands
