-- ===== src/Bench.antt =====
-- benchmark/benchmark.cpp: the program that creates databases and measures requests to them.
pub mod Keys
pub mod Record
pub mod Create
pub mod Args
pub mod Requests
pub mod Handlers
pub mod Partition
pub mod Run
pub mod Main
pub mod Examples
