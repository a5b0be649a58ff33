-- ===== src/Storage/Postgres.antt =====
-- internal/infrastructure/storage/postgres: the repositories over a database handle.
pub mod Chat
pub mod User
pub mod Refines
pub mod Queries
pub mod Effects
pub mod Message
pub mod History
pub mod MessageRefines
pub mod RoundTrip
