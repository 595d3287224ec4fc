-- ===== src/Examples.antt =====
-- Runs of the definitions on small data, and the theorems at concrete inputs.
mod LedgerRuns
mod DecisionRuns
mod CallRuns
mod HistoryRuns
mod PublisherRuns
mod CompletionRuns
mod ResidencyRuns
mod ProtocolRuns
mod SchedulerRuns
mod SupervisorRuns
mod SourceRuns
mod DispatchRuns
