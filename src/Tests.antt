-- ===== src/Tests.antt =====
-- Runs of the code on small inputs, and instances of the theorems.
mod Data
mod Examples
mod ArcRuns
mod SharedRuns
mod GhostRuns
mod KvRuns
mod WalkRuns
