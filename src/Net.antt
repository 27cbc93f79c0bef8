-- ===== src/Net.antt =====
-- net/: packet buffers, ARP, IP with ICMP, UDP and TCP, and names.
pub mod Netbuf
pub mod Arp
pub mod Ipv4
pub mod Icmp
pub mod Udp
pub mod Tcp
pub mod Dns
