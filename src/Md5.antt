-- ===== src/Md5.antt =====
-- GRPC/src/Md5.cc and Md5.h: the digest that stands for a user's name and password.
pub mod Table
pub mod Word
pub mod Mask
pub mod Low
pub mod Disjoint
pub mod Rfc
pub mod Process
pub mod Stream
pub mod Blocks
pub mod Compress
pub mod Update
pub mod Bits
pub mod Digest
pub mod Padded
pub mod Rfc1321
pub mod Object
pub mod Carry
pub mod Hex
pub mod Digits
pub mod Reference
