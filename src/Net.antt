-- ===== src/Net.antt =====
-- kernel/net: the packets of the network stack, and how they nest.
pub mod Packet
pub mod Checksum
pub mod Ethernet
pub mod Ipv4
pub mod Arp
pub mod Udp
pub mod Send
mod Tests
