-- ===== src/Repositories.antt =====
-- repositories/: the statements of each table, one module for each repository class.
pub mod Users
pub mod Organisations
pub mod Memberships
pub mod Projects
pub mod Edits
pub mod ApiKeys
pub mod AuditEvents
pub mod IdempotencyRecords
pub mod Pending
pub mod Outcomes
pub mod Errors
