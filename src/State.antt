-- ===== src/State.antt =====
-- state/store.c: the durable state of the containers. Its documents are read and written by json-c,
-- which the module Json states as a parameter.
pub mod Json
pub mod Registry
pub mod Resolve
pub mod Ports
pub mod Ipam
pub mod Identity
pub mod Reconcile
pub mod Stale
pub mod Sweep
pub mod Document
pub mod Load
pub mod Stored
pub mod Save
pub mod Exclusive
pub mod Saved
pub mod Kept
