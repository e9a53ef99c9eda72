-- ===== src/Tests.antt =====
-- Samples, runs of the code on them, and each theorem at one of them.
mod Samples
mod Graphs
mod Texts
mod Building
mod Scheduling
mod Caching
mod Commanding
mod Staleness
