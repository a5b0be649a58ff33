-- ===== src/Storage.antt =====
-- internal/infrastructure/storage: the tables, the statements that the repositories send, and the
-- repositories of PostgreSQL and of MySQL, and the caches before them.
pub mod Tables
pub mod Order
pub mod Connection
pub mod Sql
pub mod Ownership
pub mod Postgres
pub mod Mysql
pub mod Cached
