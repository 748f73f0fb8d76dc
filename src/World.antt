-- ===== src/World.antt =====
-- The state that the plugin's functions read and change, the calls it makes to code outside the
-- repository, and the monad in which the functions are written.
pub mod State
pub mod Host
pub mod Monad
pub mod Memory
pub mod Frame
pub mod Interp
pub mod Laws
