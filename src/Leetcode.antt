-- ===== src/Leetcode.antt =====
-- The exercises of cpp/leetcode.
pub mod Hamming
pub mod Battleships
mod Tests
