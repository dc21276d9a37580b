-- ===== src/Arch.antt =====
-- The processor: kernel/src/arch/a64.
pub mod TranslationTables
pub mod TableManager
