-- ===== src/Contracts.antt =====
-- src/hfp_mcp/contracts.py: the validation of arguments and the ledger of idempotent requests.
pub mod Validate
pub mod Address
pub mod PhoneNumber
pub mod Ledger
