-- ===== src/Grades.antt =====
-- The grading program of hw2.
pub mod Float
pub mod Data
pub mod Records
pub mod Freqs
pub mod Sums
pub mod Links
pub mod Normal
pub mod Sort
pub mod Read
pub mod Write
mod Tests
