-- ===== src/Linux.antt =====
-- linux/: the control group of a container, and the supervision of its first process.
pub mod Cgroup
pub mod Limits
pub mod Run
pub mod Released
pub mod Workload
pub mod Confined
pub mod Control
pub mod Answered
