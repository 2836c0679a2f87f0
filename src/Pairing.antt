-- ===== src/Pairing.antt =====
-- agent/osprey-core/src/pairing: how two devices come to trust each other, and how one ends it.
pub mod Revoke
pub mod Offer
pub mod Flow
