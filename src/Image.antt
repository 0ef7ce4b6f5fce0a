-- ===== src/Image.antt =====
-- image/import.c: images are imported from archives, and looked up by name.
pub mod Entry
pub mod Safe
pub mod Store
pub mod Consistent
pub mod Published
pub mod Record
pub mod Found
