-- ===== src/Examples.antt =====
-- Runs of the model and its theorems at concrete inputs.
mod Memory
mod Records
mod Services
mod Spans
mod Logs
mod Resolves
mod Core
mod Worker
mod Threads
mod Lives
mod Engines
mod Apis
mod Wires
