-- ===== src/Pipeline.antt =====
-- app/pipeline: the stages that a worker runs on a candidate.
pub mod Filters
pub mod Match
pub mod Judge
pub mod Skills
pub mod Score
