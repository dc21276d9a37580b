-- ===== src/Ipc.antt =====
-- userspace/libipc: the messages of the user programs.
pub mod Bytes
pub mod Message
