-- ===== src/Tsh.antt =====
-- shelllab/tsh.c: the tiny shell with job control.
pub mod Jobs
pub mod Parseline
pub mod Shell
mod Tests
