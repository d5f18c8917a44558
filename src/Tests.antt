-- ===== src/Tests.antt =====
-- Runs of the model on small servers, and each theorem at an input that meets its hypotheses.
mod Fake
mod Goods
mod Shop
mod Examples
mod Serving
mod Pools
mod Counters
mod Digests
