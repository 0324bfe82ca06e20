-- ===== src/Net/Kcp.antt =====
-- KCP connections: the built-in protocol that opens and closes them, and the two ends together.
pub mod Mux
pub mod ReadLoop
pub mod Messages
pub mod Connection
pub mod Protocol
mod Examples
