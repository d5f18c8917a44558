-- ===== src/Worker.antt =====
-- GRPC/src/Worker.h and Worker.cc: one request for the goods, from its arrival to its answer.
pub mod Stops
pub mod Check
pub mod Order
pub mod Goods
pub mod Proceed
pub mod Keep
pub mod Local
pub mod Ending
pub mod Verdict
pub mod Answer
pub mod Answered
pub mod Admission
pub mod Life
pub mod Stock
pub mod Trade
pub mod Users
pub mod Counters
pub mod Shop
pub mod Lends
