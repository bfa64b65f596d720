-- ===== src/Shm.antt =====
-- `shm:` of ipcd/src/shm.rs: named shared memory.
pub mod Guard
pub mod Scheme
