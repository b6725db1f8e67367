-- ===== src/State.antt =====
-- src/hfp_mcp/state.py: the daemon's versioned runtime state and its single reducer.
-- Every method holds one re-entrant lock, so a method is one atomic step from state to state.
pub mod Types
pub mod Connection
pub mod Call
pub mod Identity
pub mod Audio
pub mod Health
pub mod Steps
pub mod Invariant
pub mod Generations
pub mod Transitions
pub mod Balance
pub mod Pending
pub mod Replacement
pub mod Snapshot
