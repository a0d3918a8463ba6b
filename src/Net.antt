-- ===== src/Net.antt =====
-- private/net: the texts that it reads.
pub mod Ipv4
