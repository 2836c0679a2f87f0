-- ===== src/Tests.antt =====
-- The theorems at concrete inputs, with simple functions for what is a parameter of the model.
mod Fixtures
mod Sessions
mod Messages
mod Serving
mod Trust
mod Host
mod Charts
mod Admissions
mod Keepers
mod Machine
mod Devices
