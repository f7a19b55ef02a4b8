-- ===== src/Tests.antt =====
-- Concrete runs of the modelled code, and the theorems at concrete inputs.
mod Encoding
mod RlpRuns
mod FarmRuns
mod ClientRuns
mod LoopRuns
mod StratumRuns
mod WorkerRuns
mod OptionRuns
mod SessionRuns
mod PoolRuns
mod MiningRuns
mod StartupRuns
mod RangeRuns
mod DatabaseRuns
