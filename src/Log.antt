-- ===== src/Log.antt =====
-- The logs of detached containers: runtime/shim_main.c writes and rotates them, cli/main.c shows them.
pub mod Pump
pub mod Bound
