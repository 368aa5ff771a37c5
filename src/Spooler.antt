-- ===== src/Spooler.antt =====
-- The printer spooler of hw4/src/main.c, with the records of hw4/include/imprimer.h.
pub mod State
pub mod Texts
pub mod Commands
pub mod Schedule
pub mod Suits
pub mod Board
pub mod Eligible
pub mod Shown
pub mod Covered
pub mod Defined
pub mod Invariant
pub mod Rounds
mod Tests
