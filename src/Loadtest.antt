-- ===== src/Loadtest.antt =====
-- Eve/loadtest/evaluate.py: the release gate over the statistics of a load test and the snapshots of
-- resources that were taken during it.
pub mod Stats
pub mod Resources
pub mod Fast
pub mod Clean
pub mod Accepts
