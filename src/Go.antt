-- ===== src/Go.antt =====
-- What the program uses of its environment: the ways in which a Go call ends, actions on a state,
-- and the code outside the repository as a record of operations.
mod Monad
mod Foreign
pub use Monad.*
pub use Foreign.*
