-- ===== src/Tests.antt =====
-- Runs on concrete inputs, and the theorems at them.
mod Json
mod Inputs
mod Registry
mod Runtime
mod Cli
mod Store
mod Commands
mod Image
mod Linux
mod Fs
mod Workload
mod Control
