-- ===== src/UseCase/Chat.antt =====
-- internal/usecase/chat.
pub mod Dto
pub mod Service
pub mod Refines
pub mod Policy
pub mod Exact
pub mod NextOwner
pub mod Leaving
pub mod Ownership
pub mod Owned
pub mod Opened
pub mod Faults
pub mod Histories
pub mod Handover
pub mod Deleted
