-- ===== src/Examples.antt =====
-- The theorems on concrete inputs.
mod RegistryRuns
mod PcapRuns
mod SinkholeRuns
mod AnalyzerRuns
mod JobRuns
mod RunRuns
mod PipelineRuns
mod SignalRuns
mod CollectorRuns
mod ReleaseRuns
mod HookRuns
