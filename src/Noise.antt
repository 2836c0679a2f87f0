-- ===== src/Noise.antt =====
-- The Noise transport of agent/osprey-core/src/noise: frames, chunks and sessions.
pub mod Framing
pub mod Session
pub mod Handshake
