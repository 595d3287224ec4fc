-- ===== src/Sources.antt =====
-- The input sources (image_processor/sources/): how a spool file proves that it is finished.
pub mod Timestamps
pub mod Readiness
