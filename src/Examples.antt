-- ===== src/Examples.antt =====
-- A small interpreter and a small engine on which the theorems are applied, and the tests.
pub mod Machine
pub mod Laws
pub mod Server
pub mod Witnesses
pub mod ApiWitnesses
pub mod DetourWitnesses
pub mod WireWitnesses
pub mod SeatingWitnesses
pub mod CallWitnesses
pub mod EventWitnesses
pub mod SessionWitnesses
pub mod ObjectWitnesses
