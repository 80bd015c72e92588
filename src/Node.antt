-- ===== src/Node.antt =====
-- internal/agent: the half of a node that runs tasks. (The module is called Node, since Agent is
-- the leader's record of one.)
pub mod State
pub mod Store
pub mod Capacity
pub mod Stop
pub mod Start
pub mod Restart
pub mod Handoff
pub mod Monitor
