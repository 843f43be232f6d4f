-- ===== src/Verdict.antt =====
-- cargo-soothfast/src/verdict.rs: what CI says about one project, from the finished job to the comment on
-- the pull request. A record is built from a job (Build), written and read (Json), folded with the other
-- shards of its project (Fold), sorted, rendered and trimmed (Report, Render).
pub mod Types
pub mod Ansi
pub mod Reuse
pub mod Output
pub mod Absorb
pub mod Fold
pub mod Shards
pub mod Report
pub mod Sort
pub mod Gate
pub mod Build
pub mod Json
pub mod Render
pub mod Fit
pub mod Fence
mod Tests
