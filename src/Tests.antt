-- ===== src/Tests.antt =====
-- The definitions and theorems at concrete inputs.
mod Protocol
mod State
mod Media
mod Hfp
mod Routing
mod Contracts
mod Callbacks
mod Playback
mod Enrollment
