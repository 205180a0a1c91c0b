-- ===== src/Tests.antt =====
-- The theorems at work on small inputs.
mod Samples
mod Words
mod Filters
mod Caches
mod Pools
mod Registry
mod Processing
mod Tracing
mod Shells
mod Trits
mod Motors
mod Robots
mod Cores
mod Pipelines
mod Imus
mod Throughputs
mod Timings
