-- ===== src/MembershipService/Effects.antt =====
-- What the membership operations do to the database.
pub mod Adding
pub mod Changes
