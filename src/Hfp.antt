-- ===== src/Hfp.antt =====
-- src/hfp_mcp/hfp: the AT protocol over RFCOMM, its transactions and the call state they report.
pub mod Line
pub mod Parser
pub mod Number
pub mod Csv
pub mod Results
pub mod Command
pub mod Broker
pub mod Reports
pub mod CurrentCalls
pub mod Dispatcher
pub mod Handshake
