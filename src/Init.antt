-- ===== src/Init.antt =====
-- The start of the services, init/src.
pub mod Scheduler
