-- ===== src/Net/Tcp.antt =====
-- os/src/net/tcp.rs: packets, sockets and the state machine, and what holds of them.
pub mod Packet
pub mod Socket
pub mod Sent
pub mod States
pub mod Reach
pub mod Checksummed
pub mod Layout
pub mod Delivery
pub mod Handshake
