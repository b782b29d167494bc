-- ===== src/Domain/Correlation.antt =====
-- redforge/domain/finding_correlation.py: the keys that are compared, the decision on a pair, the
-- groups of findings, their anchors and what is told of each group.
pub mod Kinds
pub mod Key
pub mod Decision
pub mod Compare
pub mod Group
pub mod Anchor
pub mod Aggregate
pub mod Collection
