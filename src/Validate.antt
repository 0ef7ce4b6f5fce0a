-- ===== src/Validate.antt =====
-- util/validate.c: names, archive paths, link targets, environment assignments and users.
-- A pointer argument is a string, so the NULL tests have no counterpart; an out parameter is the
-- result of an Option.
pub mod Path
pub mod Name
pub mod Environment
pub mod User
