-- ===== src/Examples.antt =====
-- Runs at concrete inputs: of the wire protocol, of the stores, and of the scheduler.
mod Wire
mod Storage
mod Serving
mod Drafting
mod Generation
