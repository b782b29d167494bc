-- ===== src/Runtime.antt =====
-- redforge/runtime: the sequential pipeline, its policies and what it reports.
pub mod Policy
pub mod Diagnostics
pub mod Pipeline
pub mod Registry
