-- ===== src/Fx.antt =====
-- Foreign exchange: the daily rates, the converter, and the sweep that fills `amount_base`.
pub mod Rates
pub mod Convert
pub mod Recompute
pub mod Lookup
pub mod History
pub mod Pivot
pub mod Sweep
pub mod Backfill
pub mod Completion
pub mod Tasks
