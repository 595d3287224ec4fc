-- ===== src/Protocol.antt =====
-- image_processor/engine/protocol.py: what a failure means, and the provider policy. A message that
-- is published is the list of its code points.
pub mod Tables
pub mod Messages
pub mod Classify
pub mod Providers
pub mod Bounds
pub mod Severity
pub mod Codes
pub mod Blame
pub mod Assigned
