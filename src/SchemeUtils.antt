-- ===== src/SchemeUtils.antt =====
-- The shared helpers of the schemes, scheme-utils/src/lib.rs: the table of open handles and the
-- writer that answers `fpath`.
pub mod Readiness
pub mod HandleMap
pub mod FpathWriter
