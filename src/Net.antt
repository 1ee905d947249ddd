-- ===== src/Net.antt =====
-- The network stack's pure parts: src/kernel/net/net_utils.c and net_dns.c.
pub mod Bytes
pub mod Checksum
pub mod Arp
pub mod Dns
pub mod Tcp
mod Tests
