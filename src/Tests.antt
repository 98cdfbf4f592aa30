-- ===== src/Tests.antt =====
-- Runs of the models on concrete inputs.
mod CacheRuns
mod TextRuns
mod QueryRuns
mod ServiceRuns
mod ExecutionRuns
mod ClientRuns
mod ServerRuns
mod ConfigRuns
mod ProcessRuns
mod ModelRuns
mod JsonRuns
mod DocumentRuns
mod ReplyRuns
mod OperationRuns
