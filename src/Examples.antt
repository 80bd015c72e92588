-- ===== src/Examples.antt =====
-- Concrete inputs on which the theorems are applied.
pub mod Data
pub mod Nodes
pub mod Handoffs
pub mod Leaders
pub mod Leases
pub mod Runners
pub mod Elections
pub mod Servers
