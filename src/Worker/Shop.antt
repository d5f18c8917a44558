-- ===== src/Worker/Shop.antt =====
-- GRPC/src/Worker.cc: what the requests do to the goods, as steps of an abstract shop.
pub mod Spec
pub mod Laws
pub mod Frames
pub mod Order
pub mod Answer
pub mod Life
