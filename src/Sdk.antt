-- ===== src/Sdk.antt =====
-- redforge/sdk: the types that the capabilities, the planner and the runtime share.
pub mod StateKey
pub mod Exception
pub mod CapabilityId
pub mod Definition
pub mod Value
pub mod Result
pub mod Context
