-- ===== src/Worker/Trade.antt =====
-- GRPC/src/Worker.cc: what `seckillGoods_mysql` does to the stock and to the orders, on a
-- database that behaves as Worker/Stock.antt says.
pub mod Rows
pub mod Read
pub mod Statements
pub mod End
pub mod Write
pub mod Balance
pub use End.{Trade, traded, lost, untraded}
pub use Write.*
