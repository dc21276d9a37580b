-- ===== src/Filesystem.antt =====
-- The file systems: kernel/src/filesystem.
pub mod Fat
pub mod ShortName
