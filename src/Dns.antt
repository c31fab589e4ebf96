-- ===== src/Dns.antt =====
-- The DNS responder of run-hosting: src/runHosting/dnsMessage.ts and dnsResponder.ts.
mod Examples
pub mod Message
