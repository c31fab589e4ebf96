-- ===== src/Dhcp.antt =====
-- The DHCP server of run-hosting: src/runHosting/ip.ts (Ip), dhcpLeases.ts (Leases).
mod Examples
pub mod Ip
pub mod Leases
pub mod Message
pub mod Handler
