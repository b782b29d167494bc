-- ===== src/Tests.antt =====
-- Runs of the model, and the theorems at concrete data.
mod Samples
mod SdkTests
mod PlanningTests
mod RuntimeTests
mod DomainSamples
mod DomainTests
mod RiskTests
