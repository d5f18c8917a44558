-- ===== src/Client.antt =====
-- GRPC/src/seckill_client.cc: the client that sends the test requests and checks the outcome.
pub mod Data
pub mod Check
pub mod Session
pub mod Duplicates
pub mod Dangling
pub mod Threads
pub mod Keys
