-- ===== src/Domain.antt =====
-- redforge/domain: what the capabilities find, as values, and how findings are correlated.
pub mod Strings
pub mod Hostname
pub mod Scope
pub mod HttpUrl
pub mod Graph
pub mod Risk
pub mod Finding
pub mod Correlation
