-- ===== src/WinExec.antt =====
-- agent/platform/windows/executor_win.c: a program runs in a child process of Windows.
pub mod Cmdline
pub mod Environment
pub mod Child
pub mod Script
mod Tests
