-- ===== src/UseCase.antt =====
-- internal/usecase: the services behind the handlers.
pub mod Chat
pub mod User
pub mod Message
