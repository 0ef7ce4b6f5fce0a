-- ===== src/Fs.antt =====
-- util/fs.c: the write of a file that replaces it at once.
pub mod Write
pub mod Atomic
