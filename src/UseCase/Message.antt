-- ===== src/UseCase/Message.antt =====
-- internal/usecase/message.
pub mod Dto
pub mod Service
pub mod Exact
pub mod Pages
pub mod Faults
