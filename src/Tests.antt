-- ===== src/Tests.antt =====
-- Runs on a small game, with numbers for floats, and the theorems at concrete inputs.
mod Setup
mod Search
mod Trees
mod Choices
mod Queues
mod Threads
mod Slots
mod Episodes
mod Records
mod Evaluations
mod Climbs
mod Observations
