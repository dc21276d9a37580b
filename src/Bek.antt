-- ===== src/Bek.antt =====
-- bek: the project's own standard library.
pub mod Time
pub mod Vector
