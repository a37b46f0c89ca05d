-- ===== src/Client.antt =====
-- The client's side of the HTTP interface: crates/duragent-client/src.
pub mod Sse
