-- ===== src/Schemas.antt =====
-- schemas/: the bodies that the API takes, and the responses that it gives, with their validation.
pub mod Fields
pub mod Bodies
pub mod Responses
