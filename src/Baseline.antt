-- ===== src/Baseline.antt =====
-- cargo-soothfast/src/baseline_merge.rs: one baseline from the files of one run. Shard has `Shard` of
-- cargo-soothfast/src/invoke.rs with the hash of soothfast-registry/src/lib.rs. Reading and writing the
-- files is left out, and so is the clock: the time is an argument.
pub mod Shard
pub mod Unaccounted
pub mod Merge
pub mod Whole
pub mod Accounted
pub mod Merged
pub mod Taken
pub mod Outcome
pub mod Alone
mod Tests
