-- ===== src/Server.antt =====
-- GRPC/src/seckill_server.cc: the preparation of the two databases, and the loop that hands
-- events to workers.
pub mod Prepare
pub mod Serve
pub mod Keep
pub mod Loop
pub mod Gate
pub mod Registration
pub mod Trading
pub mod Lends
pub mod Limit
