-- ===== src/Examples.antt =====
-- Concrete runs of the program's parts, on which the theorems are used.
mod Parsing
pub mod Messages
pub mod Transactions
mod Proxying
mod Accepting
mod Resolving
pub mod Calling
mod Registering
mod Connecting
