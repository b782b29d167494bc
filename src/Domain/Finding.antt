-- ===== src/Domain/Finding.antt =====
-- redforge/domain/finding_intelligence.py: the enumerations, the values that a finding is about, the
-- references, the observations and the records.
pub mod Subjects
pub mod Observations
pub mod Slug
pub mod Subject
pub mod Reference
pub mod Metadata
pub mod Record
pub mod Collection
