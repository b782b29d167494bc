-- ===== src/Planning.antt =====
-- redforge/planning: the registry of capability definitions, the models of a plan, the planner, the
-- factories of capabilities and the builder of pipelines.
pub mod Registry
pub mod Model
pub mod Planner
pub mod Factory
pub mod Builder
