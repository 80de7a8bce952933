-- ===== src/Shell.antt =====
-- shell-lab2/tsh.c, the shell with job control: one module for each part of the file.
pub mod State
pub mod Jobs
pub mod Parse
pub mod Signals
pub mod Control
pub mod Main
mod Tests
