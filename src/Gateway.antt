-- ===== src/Gateway.antt =====
-- The gateway of the program: crates/duragent/src/gateway.
pub mod Protocol
pub mod Queue
pub mod Routing
