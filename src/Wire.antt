-- ===== src/Wire.antt =====
-- The wire protocol of agent/osprey-proto: value enums, message types, bodies and the envelope.
pub mod Match
pub mod ErrorCode
pub mod ByeReason
pub mod IdentityAlgorithm
pub mod Capability
pub mod Registry
pub mod Bodies
pub mod Envelope
