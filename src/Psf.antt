-- ===== src/Psf.antt =====
-- kernel/src/psf.rs and kernel/src/psf/ucs2.rs: the reader of PC screen fonts.
-- Bytes are numbers below 256.
pub mod Outcome
pub mod Ucs2
pub mod Utf8
pub mod File
pub mod Entries
pub mod Row
pub mod Tests
