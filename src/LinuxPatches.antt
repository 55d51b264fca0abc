-- ===== src/LinuxPatches.antt =====
-- agent/platform/linux/patches_linux.c: the updates that the package manager offers, and their
-- installation.
pub mod Lines
pub mod Collect
pub mod Install
mod Tests
