-- ===== src/Tests.antt =====
-- Runs at concrete inputs, and an instance of each theorem that has hypotheses.
mod Cluster
mod RaftExamples
mod FaultExamples
mod RuntimeExamples
mod RpcExamples
mod ConfigExamples
mod ProcessExamples
mod StorageExamples
