-- ===== src/Checks.antt =====
-- Concrete inputs for the theorems that have hypotheses: a platform, a configuration, a queue.
mod Data
mod ReceiverChecks
mod SenderChecks
mod MuxerChecks
mod ListenerChecks
mod NetworkChecks
mod LinkChecks
mod BridgeChecks
mod SourceChecks
mod WindowData
mod WindowChecks
