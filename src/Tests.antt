-- ===== src/Tests.antt =====
-- Runs of the program's own scenarios, and the theorems at concrete inputs.
mod Identity
mod Stories
mod Receipts
mod Sequences
mod Envelopes
mod Reports
mod Routing
mod Walks
mod Rundowns
mod Recovery
mod Received
mod Scripts
mod Catalogue
