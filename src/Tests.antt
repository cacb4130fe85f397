-- ===== src/Tests.antt =====
-- The theorems at concrete inputs, and tests of the definitions.
mod Data
mod Storage
mod Queues
mod Replays
mod Calls
mod Service
mod Histories
mod Systems
mod Tables
