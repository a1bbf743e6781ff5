-- ===== src/Net.antt =====
-- os/src/net: checksums, packets, sockets and the network manager.
pub mod Wire
pub mod Ip
pub mod Checksum
pub mod Tcp
pub mod Packets
pub mod Dns
pub mod Manager
