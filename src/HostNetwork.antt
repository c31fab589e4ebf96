-- ===== src/HostNetwork.antt =====
-- The host's network for the guests: src/hostNetwork/subnetSelection.ts.
mod Examples
pub mod Subnets
