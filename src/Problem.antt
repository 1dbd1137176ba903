-- ===== src/Problem.antt =====
-- The exercises of cpp/problem.
mod Tests
pub mod Tinyurl
pub mod Multi
pub mod MinSpan
pub mod Slices
