-- ===== src/Tests.antt =====
-- The development at concrete inputs: an instance of each theorem that has hypotheses, and runs.
mod Data
mod Expert
mod Dense
mod Herd
mod Hook
mod Storage
mod Reads
mod Router
