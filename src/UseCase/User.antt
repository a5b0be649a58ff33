-- ===== src/UseCase/User.antt =====
-- internal/usecase/user.
pub mod Dto
pub mod Service
pub mod Laws
pub mod Rollback
pub mod Faults
