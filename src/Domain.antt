-- ===== src/Domain.antt =====
-- internal/domain: the entities, the errors and the repository interfaces.
pub mod Errors
pub mod User
pub mod Chat
pub mod Message
pub mod Refines
pub mod MessageRefines
