-- ===== src/Machine.antt =====
-- The state that GRPC/src/Worker.cc works on, and its statements as a monad: the world behind
-- the libraries, the two pools, the counters that the workers share, the workers themselves.
mod Monad
pub mod Calls
pub mod Execute
pub mod Quiet
pub mod Returns
pub use Monad.*
