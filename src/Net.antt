-- ===== src/Net.antt =====
-- pkg/xnet: the sockets, their read and write loops, and the protocol of KCP connections.
pub mod Handler
pub mod Buffer
pub mod Stream
pub mod Kcp
pub mod Write
pub mod Delivery
pub mod Session
pub mod Server
pub mod Udp
pub mod Client
pub mod Socket
pub mod Websocket
