-- ===== src/Ledger.antt =====
-- The job ledger (image_processor/ledger/): its tables and transactions, then the operations by
-- subject, each with its proofs in child modules, and what holds of every history of calls.
pub mod Columns
pub mod Schema
pub mod Store
pub mod Jobs
pub mod Outbox
pub mod Cleanup
pub mod Recovery
pub mod Values
pub mod Sound
pub mod Lifecycle
pub mod History
