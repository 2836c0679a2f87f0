-- ===== src/Host.antt =====
-- The parts of agent/osprey-svc that run: its live sessions and the threads around them.
pub mod Registry
pub mod Session
pub mod Run
pub mod Unpairing
pub mod Helper
pub mod Lan
