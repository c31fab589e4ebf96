-- ===== src/Hosting.antt =====
-- The blue-green proxy loop of run-hosting, src/runHosting/runHostingLoop.ts, as a state machine:
-- its variables, what each event and each awaited call does to them.
mod Examples
pub mod Types
pub mod Shutdown
pub mod Pipeline
pub mod Machine
pub mod Settling
pub mod View
pub mod Draining
pub mod Serving
pub mod Uptime
